-- ===== src/Laws/Lease/Replay.antt =====
-- Repeated requests to the store of xsync_v2/lease_store.py.
use x_sync.Prelude.{
  List, Option-cases, String-eq, [], arith, false, has, inl, inr, none, ok, refl, some, true, ℕ,
  ◌++◌, ◌+◌, ◌<◌, ◌∷◌, ◌≡◌, ◌≤◌,
}
use x_sync.Identity.{Sha256}
use x_sync.Laws.Lease.Last.{commit-Published}
use x_sync.Laws.Lease.Operations.{claim-Commits, renew-Commits}
use x_sync.Lease.Clock.{Calls, LeaseHost}
use x_sync.Lease.Commit.{
  Committed, commit, committed_transaction, provisional_transaction, receipt_of_request, replay_of,
  replay_receipt,
}
use x_sync.Lease.Encode.{LeaseDigests}
use x_sync.Lease.History.{
  HistoryLoop, first_loop, next_loop, valid_from, valid_history, valid_identity,
}
use x_sync.Lease.Model.{
  AuthoritativeWorkSnapshot, ClaimRequest, LeaseOperation, LeaseOperation-cases, LeaseRequest,
  LeaseTransaction, RenewRequest, RuntimeAuthorityCheck, claim_request, renew_request,
}
use x_sync.Lease.Requests.{same_claim}
use x_sync.Lease.Store.{claim, renew, replayed_outcome}
use x_sync.Lease.Terms.{
  last_transaction, lease_at_commit, operation_of, renewed_lease, request_id_of,
}
use x_sync.Work.{RunnableWork}

-- A request id that is in the set of the loop belongs to no later transaction.
valid_from_fresh :
    (index : ℕ) (loop : HistoryLoop) (history : List LeaseTransaction) (t : LeaseTransaction)
    → valid_from index loop (history ++ t ∷ []) ≡ true
    → (has t.request_id loop.request_ids ≡ false) × (receipt_of_request history t.request_id ≡ none)
unfolding valid_from valid_identity next_loop receipt_of_request has
valid_from_fresh index loop [] t v = (ground arith, refl)
valid_from_fresh index loop (x ∷ history) t v =
    let (a, b) =
      valid_from_fresh (index + 1) (next_loop loop x x.operation) history t (ground arith) in
    elim (LeaseOperation-cases x.operation) [
      | inl o ↦ (ground arith, ground arith)
      | inr (inl o) ↦ (ground arith, ground arith)
      | inr (inr o) ↦ (ground arith, ground arith)
    ]

valid_history_fresh :
    (history : List LeaseTransaction) (t : LeaseTransaction)
    → valid_history (history ++ t ∷ []) ≡ true
    → receipt_of_request history t.request_id ≡ none
unfolding valid_history receipt_of_request has
valid_history_fresh [] t v = refl
valid_history_fresh (x ∷ history) t v =
    let (a, b) = valid_from_fresh 2 (first_loop x) history t (ground arith) in ground arith

receipt_of_request-append :
    (history : List LeaseTransaction) (t : LeaseTransaction)
    → receipt_of_request history t.request_id ≡ none
    → receipt_of_request (history ++ t ∷ []) t.request_id ≡ some t
unfolding receipt_of_request
receipt_of_request-append [] t n = ground arith
receipt_of_request-append (x ∷ history) t n = ground (arith, receipt_of_request-append history t)

module _ ⦃h : Sha256⦄ ⦃digests : LeaseDigests⦄ where
  -- The receipt of what a commit has written.
  commit-recorded :
      (host : LeaseHost) (history : List LeaseTransaction) (work : RunnableWork)
      (request : LeaseRequest) (check : RuntimeAuthorityCheck) (calls : Calls)
      (committed : Committed)
      → commit host history history work request check calls ≡ ok committed
      → committed.outcome.replayed ≡ false
      → replay_receipt committed.transactions
          (request_id_of request)
          (digests.digest_of_request (operation_of request) request)
        ≡ ok (
            some (record {
              operation = operation_of request;
              lease = committed.outcome.lease;
              replayed = true;
            }))
  unfolding replay_receipt replay_of committed_transaction provisional_transaction
  commit-recorded host history work request check calls committed c n =
      let w = commit-Published host history history work request check calls committed c n in
      let t = committed_transaction history work request w.recorded_at w.lease in
      let found =
        receipt_of_request-append history t (valid_history_fresh history t w.extends_valid) in
      let lease = w.returned in rw w.written (ground arith)

module _ ⦃h : Sha256⦄ ⦃digests : LeaseDigests⦄ (host later_host : LeaseHost)
    (snapshot later_snapshot : AuthoritativeWorkSnapshot)
    (history later_durable : List LeaseTransaction) (calls later_calls : Calls)
    (committed : Committed) where
  -- A claim that has been committed may be sent again: whatever the clock, the runtime and the work
  -- are by then, it returns the lease of the first time and writes nothing.
  pub claim_again :
      (request : ClaimRequest)
      → claim host snapshot history history request calls ≡ ok committed
      → committed.outcome.replayed ≡ false
      → claim later_host later_snapshot committed.transactions later_durable request later_calls
        ≡ ok (
            replayed_outcome
              (record {
                operation = LeaseOperation.claim;
                lease = committed.outcome.lease;
                replayed = true;
              })
              committed.transactions
              later_calls)
  unfolding claim
  claim_again request c n =
      let (v, (work, check, at, w)) =
        claim-Commits host snapshot history history committed request calls c n in
      let r = commit-recorded host history work (claim_request request) check at committed w n in
      ground arith

  -- A renewal that has been committed may be sent again in the same way.
  pub renew_again :
      (request : RenewRequest)
      → renew host snapshot history history request calls ≡ ok committed
      → committed.outcome.replayed ≡ false
      → renew later_host later_snapshot committed.transactions later_durable request later_calls
        ≡ ok (
            replayed_outcome
              (record {
                operation = LeaseOperation.renew;
                lease = committed.outcome.lease;
                replayed = true;
              })
              committed.transactions
              later_calls)
  unfolding renew
  renew_again request c n =
      let (v, (work, check, at, w)) =
        renew-Commits host snapshot history history committed request calls c n in
      let r = commit-recorded host history work (renew_request request) check at committed w n in
      ground arith

module _ ⦃h : Sha256⦄ ⦃digests : LeaseDigests⦄ (host : LeaseHost)
    (snapshot : AuthoritativeWorkSnapshot) (history : List LeaseTransaction) (calls : Calls)
    (committed : Committed) where
  -- A renewal that is committed keeps the claim, the owner, the epoch and the end of the tenure of the
  -- last lease, and gives the next version and a later expiry within the tenure.
  pub renew_keeps :
      (request : RenewRequest)
      → renew host snapshot history history request calls ≡ ok committed
      → committed.outcome.replayed ≡ false
      → (last : LeaseTransaction) × (last_transaction history ≡ some last)
        × (same_claim last.lease committed.outcome.lease ≡ true)
        × (committed.outcome.lease.lease_version ≡ last.lease.lease_version + 1)
        × (last.lease.expires_at < committed.outcome.lease.expires_at)
        × (committed.outcome.lease.expires_at ≤ last.lease.absolute_expires_at)
  unfolding lease_at_commit renewed_lease same_claim
  renew_keeps request c n =
      let (v, (work, check, at, w)) =
        renew-Commits host snapshot history history committed request calls c n in
      let p =
        commit-Published host history history work (renew_request request) check at committed w n in
      let e = p.computed in
      let returned = p.returned in
      elim (Option-cases (last_transaction history)) [
        | inl f ↦ ground arith
        | inr (last, f) ↦ (last, f, ground arith, ground arith, ground arith, ground arith)
      ]
