-- ===== src/Runtime/Audio.antt =====
-- rust-server/src/audio.rs: the frames, and the registry of the connections that own a role.
pub mod Frame
pub mod Registry
pub mod Publisher
