-- ===== src/Laws/Valid.antt =====
-- Valid snapshots: what the validation of a snapshot tests, and which operations keep it. Carry is
-- about a growing sequence; Work, Model, Run, Reground, Turn and Ids about the parts of a snapshot;
-- Session, Topic, Leave, Return, Failures, Recovery and Exports about the branches of `reduce`.
pub mod Carry
pub mod Work
pub mod Session
pub mod Model
pub mod Run
pub mod Reground
pub mod Turn
pub mod Ids
pub mod Topic
pub mod Places
pub mod Leave
pub mod Return
pub mod Exports
pub mod Replaced
pub mod Failures
pub mod Recovered
pub mod Recovery
