-- ===== src/Registry.antt =====
-- The registry of dialogues: the pure decisions and the replay of xsync_v2/registry.py. At most one
-- dialogue is current; a handoff fences it under a new generation before the next one starts.
pub mod Model
pub mod Events
pub mod Valid
pub mod Decide
pub mod Transaction
pub mod Reduce
pub mod Build
