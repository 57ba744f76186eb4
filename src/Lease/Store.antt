-- ===== src/Lease/Store.antt =====
-- The operations `claim` and `renew` of the `LeaseStore` of xsync_v2/lease_store.py, and the tests of
-- its operation `reclaim`.
use x_sync.Prelude.{
  Bool, Error, List, Option, Result, String, String-eq, any, err, false, guard, if◌then◌else◌, leb,
  ltb, none, not, ok, some, ℕ, ℕ-eq, ◌!=◌, ◌&&◌, ◌+◌, ◌==◌, ◌>>=◌, ◌>>◌, ◌||◌,
}
use x_sync.Identity.{Sha256}
use x_sync.Lease.Clock.{Calls, LeaseHost, now, verify_runtime}
use x_sync.Lease.Commit.{Committed, commit, replay_receipt}
use x_sync.Lease.Current.{load_current_work}
use x_sync.Lease.Encode.{LeaseDigests}
use x_sync.Lease.History.{minimum}
use x_sync.Lease.Model.{
  AuthoritativeWorkSnapshot, ClaimRequest, CurrentRunnableWork, LeaseMutationOutcome,
  LeaseOperation, LeaseRecord, LeaseTransaction, ReclaimRequest, RenewRequest,
  RuntimeAuthorityCheck, claim_request, renew_request,
}
use x_sync.Lease.Requests.{max_renewals_per_tenure, valid_claim_request, valid_renew_request}
use x_sync.Lease.Terms.{
  assert_claim_binding, assert_renewable, current_tenure_renewals, last_transaction,
}
use x_sync.Work.{RunnableWork}

unfoldable pub lease_is_active : LeaseRecord → RunnableWork → ℕ → Bool
lease_is_active lease work time =
    (lease.registry_generation == work.registry_generation)
    && (lease.binding_digest == work.binding_digest)
    && ltb time lease.expires_at
    && ltb time lease.absolute_expires_at

-- A work that has a lease is not claimed.
unfoldable pub refuse_leased : Option LeaseTransaction → RunnableWork → ℕ → Result (Unit {0})
refuse_leased none work time = ok tt
refuse_leased (some last) work time =
    if last.work.binding_digest != work.binding_digest
    then err Error.work_identity_conflict
    else if lease_is_active last.lease work time
    then err Error.work_already_leased
    else err Error.lease_reclaim_required

abbrev pub claim_check : LeaseHost → ClaimRequest → RuntimeAuthorityCheck
claim_check host request = record {
  operation = some LeaseOperation.claim;
  runtime_epoch = host.runtime_epoch;
  owner_id = request.owner_id;
  prior_runtime_epoch = none;
  prior_owner_id = none;
  prior_owner_must_be_inactive = false;
}

-- A check of the owner of a lease.
abbrev pub owner_check : Option LeaseOperation → LeaseRecord → RuntimeAuthorityCheck
owner_check operation current = record {
  operation = operation;
  runtime_epoch = current.runtime_epoch;
  owner_id = current.owner_id;
  prior_runtime_epoch = some current.runtime_epoch;
  prior_owner_id = some current.owner_id;
  prior_owner_must_be_inactive = false;
}

abbrev pub reclaim_check : LeaseHost → String → LeaseRecord → RuntimeAuthorityCheck
reclaim_check host owner_id current = record {
  operation = some LeaseOperation.reclaim;
  runtime_epoch = host.runtime_epoch;
  owner_id = owner_id;
  prior_runtime_epoch = some current.runtime_epoch;
  prior_owner_id = some current.owner_id;
  prior_owner_must_be_inactive = current.runtime_epoch != host.runtime_epoch;
}

unfoldable pub has_claim : String → LeaseTransaction → Bool
has_claim claim_id transaction = transaction.lease.claim_id == claim_id

unfoldable pub has_owner : String → LeaseTransaction → Bool
has_owner owner_id transaction = transaction.lease.owner_id == owner_id

-- `_assert_reclaim_eligible`, for the last transaction of the history.
unfoldable pub assert_reclaim_eligible :
    LeaseHost
    → ReclaimRequest
    → CurrentRunnableWork
    → List LeaseTransaction
    → LeaseTransaction
    → Calls
    → Result Calls
assert_reclaim_eligible host request current_work history last calls = do
  guard
      ((request.work_id == current_work.work.work_id)
        && (request.expected_work_attempt == current_work.attempt))
      Error.work_superseded
  guard (last.lease.binding_digest == current_work.work.binding_digest) Error.work_identity_conflict
  reading ← now host calls
  let epoch_changed = last.lease.runtime_epoch != host.runtime_epoch
  guard (epoch_changed || leb last.lease.renewed_at reading.value) Error.clock_rolled_back
  guard (epoch_changed || leb last.lease.expires_at reading.value) Error.lease_still_active
  guard (not (any (has_claim request.claim_id) history)) Error.claim_id_reused
  guard (not (any (has_owner request.owner_id) history)) Error.owner_id_reused
  verify_runtime host (reclaim_check host request.owner_id last.lease) reading.calls

-- What a replayed request returns.
abbrev pub replayed_outcome : LeaseMutationOutcome → List LeaseTransaction → Calls → Committed
replayed_outcome outcome history calls = record {
  outcome = outcome;
  transactions = history;
  calls = calls;
}

module _ ⦃h : Sha256⦄ ⦃digests : LeaseDigests⦄ (host : LeaseHost)
    (snapshot : AuthoritativeWorkSnapshot) (history durable : List LeaseTransaction) where
  -- `claim` behind the test for a receipt.
  unfoldable pub claim_fresh : ClaimRequest → Calls → Result Committed
  claim_fresh request calls = do
    work ← load_current_work request.session_id snapshot
    guard (request.work_id == work.work_id) Error.work_superseded
    reading ← now host calls
    refuse_leased (last_transaction history) work reading.value
    verified ← verify_runtime host (claim_check host request) reading.calls
    commit host history durable work (claim_request request) (claim_check host request) verified

  unfoldable pub claim : ClaimRequest → Calls → Result Committed
  claim request calls = do
    guard (valid_claim_request request) Error.invalid_claim_request
    replay ←
        replay_receipt history request.request_id
          (digests.digest_of_request LeaseOperation.claim (claim_request request))
    elim replay [
      | some outcome ↦ ok (replayed_outcome outcome history calls)
      | none ↦ claim_fresh request calls
    ]

  -- `renew` of the last lease of the history.
  unfoldable pub renew_last :
      RunnableWork → LeaseTransaction → RenewRequest → Calls → Result Committed
  renew_last work last request calls = do
    guard (ltb (current_tenure_renewals history) max_renewals_per_tenure) Error.lease_renewal_limit
    guard (last.lease.runtime_epoch == host.runtime_epoch) Error.lease_epoch_fenced
    assert_claim_binding last.lease work request.claim_id request.owner_id
        request.expected_lease_version
    reading ← now host calls
    assert_renewable last.lease reading.value
    let runtime_check = owner_check (some LeaseOperation.renew) last.lease
    verified ← verify_runtime host runtime_check reading.calls
    guard
        (ltb last.lease.expires_at
          (minimum (reading.value + request.lease_seconds) last.lease.absolute_expires_at))
        Error.lease_renewal_not_extended
    commit host history durable work (renew_request request) runtime_check verified

  unfoldable pub renew_fresh : RenewRequest → Calls → Result Committed
  renew_fresh request calls = do
    work ← load_current_work request.session_id snapshot
    guard (request.work_id == work.work_id) Error.work_superseded
    elim (last_transaction history) [
      | none ↦ err Error.lease_not_found
      | some last ↦ renew_last work last request calls
    ]

  unfoldable pub renew : RenewRequest → Calls → Result Committed
  renew request calls = do
    guard (valid_renew_request request) Error.invalid_renew_request
    replay ←
        replay_receipt history request.request_id
          (digests.digest_of_request LeaseOperation.renew (renew_request request))
    elim replay [
      | some outcome ↦ ok (replayed_outcome outcome history calls)
      | none ↦ renew_fresh request calls
    ]
