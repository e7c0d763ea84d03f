-- ===== src/Runtime.antt =====
-- rust-server/src: the session server.
pub mod Role
pub mod Lifecycle
pub mod Limits
pub mod Tickets
pub mod Credentials
pub mod Administrator
pub mod SessionLog
pub mod Audio
pub mod Clock
pub mod Speech
pub mod Examples
pub mod Session
