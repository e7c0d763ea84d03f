-- ===== src/Runtime/Session.antt =====
-- rust-server/src/app.rs and storage.rs: the live sessions, from pairing to their one ending.
pub mod Model
pub mod Admission
pub mod Ending
pub mod Progress
pub mod Pairing
pub mod Outcomes
pub mod Answers
pub mod Results
pub mod Turns
pub mod History
