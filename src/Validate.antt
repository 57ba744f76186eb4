-- ===== src/Validate.antt =====
-- The validators of xsync_v2/state_machine.py, from single values up to the whole snapshot.
pub mod Shapes
pub mod Work
pub mod Model
pub mod Topic
pub mod State
