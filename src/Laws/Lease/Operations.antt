-- ===== src/Laws/Lease/Operations.antt =====
-- The operations of xsync_v2/lease_store.py end in a commit, or replay a receipt.
use x_sync.Prelude.{
  >>=-eq-ok, Error, List, Option-cases, String, String-eq, arith, false, guard, guard-eq-ok, inl,
  inr, ltb, ok, some, true, ◌+◌, ◌<◌, ◌==◌, ◌≡◌,
}
use x_sync.Identity.{Sha256}
use x_sync.Lease.Clock.{Calls, LeaseHost, now, verify_runtime}
use x_sync.Lease.Commit.{Committed, commit, receipt_of_request, replay_of, replay_receipt}
use x_sync.Lease.Current.{load_current_work}
use x_sync.Lease.Encode.{LeaseDigests}
use x_sync.Lease.History.{minimum}
use x_sync.Lease.Model.{
  AuthoritativeWorkSnapshot, ClaimRequest, LeaseMutationOutcome, LeaseOperation, LeaseRequest,
  LeaseTransaction, RenewRequest, RuntimeAuthorityCheck, claim_request, renew_request,
}
use x_sync.Lease.Requests.{max_renewals_per_tenure, valid_claim_request, valid_renew_request}
use x_sync.Lease.Store.{
  claim, claim_check, claim_fresh, owner_check, refuse_leased, renew, renew_fresh, renew_last,
}
use x_sync.Lease.Terms.{
  assert_claim_binding, assert_renewable, current_tenure_renewals, last_transaction,
}
use x_sync.Work.{RunnableWork}

-- A replayed receipt is marked as one.
replay_receipt-replayed :
    (history : List LeaseTransaction) (request_id digest : String) (outcome : LeaseMutationOutcome)
    → replay_receipt history request_id digest ≡ ok (some outcome)
    → outcome.replayed ≡ true
unfolding replay_receipt replay_of
replay_receipt-replayed history request_id digest outcome r =
    elim (Option-cases (receipt_of_request history request_id)) [
      | inl n ↦ ground arith
      | inr (receipt, f) ↦ ground arith
    ]

module _ ⦃h : Sha256⦄ ⦃digests : LeaseDigests⦄ (host : LeaseHost)
    (snapshot : AuthoritativeWorkSnapshot) (history durable : List LeaseTransaction)
    (committed : Committed) where
  -- The commit that has returned the outcome of a request.
  abbrev pub Commits : LeaseRequest → Type 0
  Commits request =
      (work : RunnableWork) × (check : RuntimeAuthorityCheck) × (calls : Calls) × (commit host
          history durable work request check calls
        ≡ ok committed)

  claim_fresh-Commits :
      (request : ClaimRequest) (calls : Calls)
      → claim_fresh host snapshot history durable request calls ≡ ok committed
      → Commits (claim_request request)
  unfolding claim_fresh
  claim_fresh-Commits request calls c =
      let (work, e, c1) = >>=-eq-ok (load_current_work request.session_id snapshot) _ c in
      let (_, g, c2) =
        >>=-eq-ok (guard (request.work_id == work.work_id) Error.work_superseded) _ c1 in
      let (reading, n, c3) = >>=-eq-ok (now host calls) _ c2 in
      let (_, f, c4) =
        >>=-eq-ok (refuse_leased (last_transaction history) work reading.value) _ c3 in
      let (verified, v, c5) =
        >>=-eq-ok (verify_runtime host (claim_check host request) reading.calls) _ c4 in
      (work, claim_check host request, verified, c5)

  pub claim-Commits :
      (request : ClaimRequest) (calls : Calls)
      → claim host snapshot history durable request calls ≡ ok committed
      → committed.outcome.replayed ≡ false
      → (valid_claim_request request ≡ true) × Commits (claim_request request)
  unfolding claim
  claim-Commits request calls c n =
      let (_, g, c1) =
        >>=-eq-ok (guard (valid_claim_request request) Error.invalid_claim_request) _ c in
      let (replay, r, c2) =
        >>=-eq-ok
          (replay_receipt history request.request_id
            (digests.digest_of_request LeaseOperation.claim (claim_request request)))
          _ c1 in
      (
        guard-eq-ok _ _ g,
        elim (Option-cases replay) [
          | inl f ↦ claim_fresh-Commits request calls (ground arith)
          | inr (outcome, f) ↦
              let t =
                replay_receipt-replayed history request.request_id
                  (digests.digest_of_request LeaseOperation.claim (claim_request request)) outcome
                  (ground arith) in
              ground arith
        ],
      )

  renew_last-Commits :
      (work : RunnableWork) (last : LeaseTransaction) (request : RenewRequest) (calls : Calls)
      → renew_last host snapshot history durable work last request calls ≡ ok committed
      → (current_tenure_renewals history < 256) × Commits (renew_request request)
  unfolding renew_last
  renew_last-Commits work last request calls c =
      let (_, g, c1) =
        >>=-eq-ok
          (guard (ltb (current_tenure_renewals history) max_renewals_per_tenure)
            Error.lease_renewal_limit)
          _ c in
      let (_, e, c2) =
        >>=-eq-ok (guard (last.lease.runtime_epoch == host.runtime_epoch) Error.lease_epoch_fenced)
          _ c1 in
      let (_, b, c3) =
        >>=-eq-ok
          (assert_claim_binding last.lease work request.claim_id request.owner_id
            request.expected_lease_version)
          _ c2 in
      let (reading, n, c4) = >>=-eq-ok (now host calls) _ c3 in
      let (_, t, c5) = >>=-eq-ok (assert_renewable last.lease reading.value) _ c4 in
      let check = owner_check (some LeaseOperation.renew) last.lease in
      let (verified, v, c6) = >>=-eq-ok (verify_runtime host check reading.calls) _ c5 in
      let (_, x, c7) =
        >>=-eq-ok
          (guard
            (ltb last.lease.expires_at
              (minimum (reading.value + request.lease_seconds) last.lease.absolute_expires_at))
            Error.lease_renewal_not_extended)
          _ c6 in
      (ground (arith, guard-eq-ok _ _ g), (work, check, verified, c7))

  renew_fresh-Commits :
      (request : RenewRequest) (calls : Calls)
      → renew_fresh host snapshot history durable request calls ≡ ok committed
      → Commits (renew_request request)
  unfolding renew_fresh
  renew_fresh-Commits request calls c =
      let (work, e, c1) = >>=-eq-ok (load_current_work request.session_id snapshot) _ c in
      let (_, g, c2) =
        >>=-eq-ok (guard (request.work_id == work.work_id) Error.work_superseded) _ c1 in
      elim (Option-cases (last_transaction history)) [
        | inl f ↦ ground arith
        | inr (last, f) ↦ (renew_last-Commits work last request calls (ground arith)).1
      ]

  pub renew-Commits :
      (request : RenewRequest) (calls : Calls)
      → renew host snapshot history durable request calls ≡ ok committed
      → committed.outcome.replayed ≡ false
      → (valid_renew_request request ≡ true) × Commits (renew_request request)
  unfolding renew
  renew-Commits request calls c n =
      let (_, g, c1) =
        >>=-eq-ok (guard (valid_renew_request request) Error.invalid_renew_request) _ c in
      let (replay, r, c2) =
        >>=-eq-ok
          (replay_receipt history request.request_id
            (digests.digest_of_request LeaseOperation.renew (renew_request request)))
          _ c1 in
      (
        guard-eq-ok _ _ g,
        elim (Option-cases replay) [
          | inl f ↦ renew_fresh-Commits request calls (ground arith)
          | inr (outcome, f) ↦
              let t =
                replay_receipt-replayed history request.request_id
                  (digests.digest_of_request LeaseOperation.renew (renew_request request)) outcome
                  (ground arith) in
              ground arith
        ],
      )
