-- ===== src/Laws.antt =====
-- The theorems about the components, by what they show.
pub mod Frame
pub mod Phases
pub mod Ledger
pub mod Batch
pub mod Valid
pub mod Progress
pub mod Refused
pub mod Runnable
pub mod Registry
pub mod Lease
