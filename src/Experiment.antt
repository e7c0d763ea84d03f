-- ===== src/Experiment.antt =====
-- agent_experiment.rs: experiments that software agents play without a browser.
pub mod Limits
pub mod Schedule
pub mod Model
pub mod Calls
pub mod Recording
pub mod Decision
pub mod Runner
pub mod Invariant
pub mod Examples
