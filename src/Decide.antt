-- ===== src/Decide.antt =====
-- The decision half of xsync_v2/state_machine.py: a handler for each command, the table of the
-- handlers, `decide` and `decide_fenced_quiesce`.
pub mod Guards
pub mod Session
pub mod Topic
pub mod Turn
pub mod Resume
pub mod Work
pub mod Export
pub mod Table
pub mod Quiesce
