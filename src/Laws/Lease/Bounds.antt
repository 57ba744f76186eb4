-- ===== src/Laws/Lease/Bounds.antt =====
-- The histories of leases of xsync_v2/lease_store.py are bounded.
use x_sync.Prelude.{List, [], arith, inl, inr, length, true, ℕ, ◌*◌, ◌+◌, ◌∷◌, ◌≡◌, ◌≤◌}
use x_sync.Lease.History.{
  HistoryLoop, first_loop, next_loop, valid_claim, valid_from, valid_history, valid_operation,
}
use x_sync.Lease.Model.{LeaseOperation, LeaseOperation-cases, LeaseTransaction}
use x_sync.Lease.Terms.{reclaims_of}

valid_from-bounds :
    (index : ℕ) (loop : HistoryLoop) (transactions : List LeaseTransaction)
    → loop.reclaim_count ≤ 2
    → loop.renewals_in_tenure ≤ 256
    → valid_from index loop transactions ≡ true
    → (loop.reclaim_count + reclaims_of transactions ≤ 2)
      × (length transactions + 257 * loop.reclaim_count + loop.renewals_in_tenure ≤ 770)
unfolding valid_from valid_operation next_loop reclaims_of
valid_from-bounds index loop [] c r v = (omega arith, omega arith)
valid_from-bounds index loop (t ∷ ts) c r v = elim (LeaseOperation-cases t.operation) [
  | inl o ↦ ground arith
  | inr (inl o) ↦
      let rest =
        valid_from-bounds (index + 1) (next_loop loop t LeaseOperation.renew) ts c (ground arith)
          (ground arith) in
      ground arith
  | inr (inr o) ↦
      let rest =
        valid_from-bounds (index + 1) (next_loop loop t LeaseOperation.reclaim) ts (ground arith)
          (omega arith) (ground arith) in
      ground arith
]

-- A valid history of leases has at most two reclaims and at most 771 transactions: three tenures of
-- one transaction and at most 256 renewals.
pub valid_history-bounds :
    (history : List LeaseTransaction)
    → valid_history history ≡ true
    → (reclaims_of history ≤ 2) × (length history ≤ 771)
unfolding valid_history valid_claim reclaims_of
valid_history-bounds [] v = (omega arith, omega arith)
valid_history-bounds (t ∷ ts) v =
    let rest = valid_from-bounds 2 (first_loop t) ts (omega arith) (omega arith) (ground arith) in
    ground arith
