-- ===== src/Laws/Lease/Fence.antt =====
-- Fences of xsync_v2/lease_store.py: a fence of an earlier lease publishes nothing.
use x_sync.Prelude.{
  List, Option-cases, Result-cases, [], ap, arith, false, inl, inr, ok, some, sym, ◌++◌, ◌∙◌, ◌∷◌,
  ◌≡◌,
}
use x_sync.Identity.{Sha256}
use x_sync.Laws.Lease.Last.{
  commit-Published, last_transaction-append, length-append_one, valid_history_last,
  valid_history_prefix,
}
use x_sync.Lease.Clock.{Calls, LeaseHost}
use x_sync.Lease.Commit.{Committed, commit, committed_transaction}
use x_sync.Lease.Encode.{LeaseDigests}
use x_sync.Lease.Model.{
  LeaseRecord, LeaseRequest, LeaseTransaction, PublishFence, RuntimeAuthorityCheck,
}
use x_sync.Lease.Publish.{assert_publishable_for_work, assert_publishable_last, fence_matches}
use x_sync.Lease.Terms.{last_transaction}
use x_sync.Work.{RunnableWork, validate_runnable_work}

module _ ⦃h : Sha256⦄ where
  publishable-version :
      (host : LeaseHost) (fence : PublishFence) (work : RunnableWork)
      (history : List LeaseTransaction) (calls : Calls) (lease : LeaseRecord)
      → assert_publishable_for_work host fence work history calls ≡ ok lease
      → (last : LeaseTransaction) × (last_transaction history ≡ some last)
        × (fence.lease_version ≡ last.lease.lease_version)
  unfolding assert_publishable_for_work assert_publishable_last fence_matches
  publishable-version host fence work history calls lease p =
      elim (Result-cases (validate_runnable_work work)) [
        | inl (code, f) ↦ ground arith
        | inr (validated, v) ↦ elim (Option-cases (last_transaction history)) [
          | inl n ↦ ground arith
          | inr (last, l) ↦ (last, l, ground arith)
        ]
      ]

module _ ⦃h : Sha256⦄ ⦃digests : LeaseDigests⦄ where
  -- When a store has published a transaction, a fence that let a result pass before lets none pass
  -- behind it, at whatever store, time and work: the new lease has another version.
  pub commit_fences :
      (host later_host : LeaseHost) (history durable : List LeaseTransaction)
      (work fenced later_work : RunnableWork) (request : LeaseRequest)
      (check : RuntimeAuthorityCheck) (calls fence_calls later_calls : Calls)
      (committed : Committed) (fence : PublishFence) (lease later_lease : LeaseRecord)
      → commit host history durable work request check calls ≡ ok committed
      → committed.outcome.replayed ≡ false
      → assert_publishable_for_work host fence fenced history fence_calls ≡ ok lease
      → ¬ (
          assert_publishable_for_work later_host fence later_work committed.transactions later_calls
          ≡ ok later_lease)
  commit_fences host later_host history durable work fenced later_work request check calls
        fence_calls later_calls committed fence lease later_lease c n p q =
      let w = commit-Published host history durable work request check calls committed c n in
      let t = committed_transaction history work request w.recorded_at w.lease in
      let (last, l, v) = publishable-version host fence fenced history fence_calls lease p in
      let (next, m, u) =
        publishable-version later_host fence later_work committed.transactions later_calls
          later_lease q in
      let old =
        valid_history_last history last (valid_history_prefix history t w.extends_valid) l in
      let new =
        valid_history_last (history ++ t ∷ []) t w.extends_valid
          (last_transaction-append history t) in
      let count = length-append_one history t in
      let same = sym m ∙ ap last_transaction w.written ∙ last_transaction-append durable t in
      let versions : next.lease.lease_version ≡ t.lease.lease_version = ground arith in omega arith
