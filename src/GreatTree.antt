-- ===== src/GreatTree.antt =====
-- games/great-tree/server/src/game: the Great Tree game.
pub mod Ids
pub mod State
pub mod Mechanics
pub mod Invariant
pub mod Flow
pub mod Adapter
pub mod Sunlight
pub mod Start
pub mod Play
pub mod Requests
pub mod Liveness
pub mod Examples
