-- ===== src/Laws/Lease.antt =====
-- The theorems about xsync_v2/lease_store.py, by what they show.
pub mod Bounds
pub mod Staged
pub mod Last
pub mod Operations
pub mod Fence
pub mod Tenure
pub mod Loaded
pub mod Claim
pub mod Guarded
pub mod Replay
