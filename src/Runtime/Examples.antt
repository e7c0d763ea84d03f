-- ===== src/Runtime/Examples.antt =====
-- Runs of the server's parts, on small stores.
pub mod Access
pub mod Administrators
pub mod Media
pub mod Speech
pub mod Sessions
