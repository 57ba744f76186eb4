-- ===== src/Lease.antt =====
-- xsync_v2/lease_store.py: leases on runnable work, their histories and the fences of publication.
pub mod Model
pub mod Requests
pub mod History
pub mod Clock
pub mod Terms
pub mod Encode
pub mod Commit
pub mod Current
pub mod Store
pub mod Exhaustion
pub mod Reclaim
pub mod Publish
