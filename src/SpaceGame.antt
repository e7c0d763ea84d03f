-- ===== src/SpaceGame.antt =====
-- space-game/server/src/game: the Space Game.
pub mod Level
pub mod State
pub mod Systems
pub mod Actions
pub mod Engine
pub mod Adapter
pub mod Placement
pub mod Power
pub mod Play
pub mod Examples
