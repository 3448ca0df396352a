-- ===== src/Probe.antt =====
-- src/bin/probe.rs: the command-line tool.
pub mod Text
pub mod Options
pub mod Arguments
pub mod Ranges
pub mod Resolve
pub mod Unique
pub mod Session
pub mod Waits
pub mod Confirm
pub mod Command
pub mod Restore
pub mod Run
pub mod Loops
pub mod Later
pub mod Ends
pub mod Outcome
pub mod PutBack
pub mod Typed
pub mod Main
pub mod Exclusive
mod Examples
mod RunExamples
