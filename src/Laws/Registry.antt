-- ===== src/Laws/Registry.antt =====
-- The theorems about xsync_v2/registry.py, by what they show.
pub mod Shapes
pub mod Frame
pub mod Counters
pub mod Replay
pub mod Current
pub mod Moves
pub mod Survival
pub mod Completion
pub mod Accepted
pub mod Tested
pub mod Numbered
