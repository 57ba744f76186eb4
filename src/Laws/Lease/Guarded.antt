-- ===== src/Laws/Lease/Guarded.antt =====
-- What `publication_guard` of `_commit` in xsync_v2/lease_store.py has made sure of.
