-- ===== src/Reduce.antt =====
-- The reduction half of xsync_v2/state_machine.py: the envelope of an event, a function for each
-- branch of `reduce`, and `reduce` itself.
pub mod Envelope
pub mod Session
pub mod Topic
pub mod Turn
pub mod Pause
pub mod Resume
pub mod Work
pub mod Recover
pub mod Export
pub mod Step
