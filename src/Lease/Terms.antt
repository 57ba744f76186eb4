-- ===== src/Lease/Terms.antt =====
-- `_lease_at_commit` and `_assert_commit_clock` of xsync_v2/lease_store.py and what they call.
use x_sync.Prelude.{
  Error, List, Option, Result, String, String-eq, [], err, guard, if◌then◌else◌, leb, ltb, none, ok,
  some, ℕ, ℕ-eq, ◌!=◌, ◌&&◌, ◌++◌, ◌+◌, ◌==◌, ◌>>◌, ◌||◌, ◌∷◌,
}
use x_sync.Lease.Clock.{LeaseHost}
use x_sync.Lease.History.{minimum}
use x_sync.Lease.Model.{
  LeaseOperation, LeaseOperation-eq, LeaseRecord, LeaseRequest, LeaseTransaction, ReclaimRequest,
  RenewRequest, claim_request, reclaim_request, renew_request,
}
use x_sync.Lease.Requests.{valid_lease}
use x_sync.Work.{RunnableWork}

-- `history[-1]`.
abbrev pub last_transaction : List LeaseTransaction → Option LeaseTransaction
last_transaction [] = none
last_transaction (transaction ∷ []) = some transaction
last_transaction (transaction ∷ next ∷ transactions) = last_transaction (next ∷ transactions)

unfoldable pub reversed : List LeaseTransaction → List LeaseTransaction
reversed [] = []
reversed (transaction ∷ transactions) = reversed transactions ++ transaction ∷ []

unfoldable pub leading_renewals : List LeaseTransaction → ℕ
leading_renewals [] = 0
leading_renewals (transaction ∷ transactions) =
    let rest = leading_renewals transactions in
    if transaction.operation != LeaseOperation.renew then 0 else rest + 1

unfoldable pub current_tenure_renewals : List LeaseTransaction → ℕ
current_tenure_renewals history = leading_renewals (reversed history)

unfoldable pub reclaims_of : List LeaseTransaction → ℕ
reclaims_of [] = 0
reclaims_of (transaction ∷ transactions) =
    let rest = reclaims_of transactions in
    if transaction.operation == LeaseOperation.reclaim then rest + 1 else rest

unfoldable pub assert_claim_binding :
    LeaseRecord → RunnableWork → String → String → ℕ → Result (Unit {0})
assert_claim_binding lease work claim_id owner_id lease_version = do
  guard
      ((lease.claim_id == claim_id)
        && (lease.owner_id == owner_id)
        && (lease.registry_generation == work.registry_generation)
        && (lease.binding_digest == work.binding_digest))
      Error.lease_fenced
  guard (lease.lease_version == lease_version) Error.lease_version_conflict

unfoldable pub acquired_lease :
    LeaseHost → RunnableWork → String → String → ℕ → ℕ → ℕ → ℕ → LeaseRecord
acquired_lease host work claim_id owner_id lease_version time lease_seconds tenure_seconds =
    record {
      session_id = work.session_id;
      work_id = work.work_id;
      binding_digest = work.binding_digest;
      claim_id = claim_id;
      owner_id = owner_id;
      runtime_epoch = host.runtime_epoch;
      lease_version = lease_version;
      registry_generation = work.registry_generation;
      acquired_at = time;
      renewed_at = time;
      expires_at = time + lease_seconds;
      absolute_expires_at = time + tenure_seconds;
    }

unfoldable pub new_lease :
    LeaseHost → RunnableWork → String → String → ℕ → ℕ → ℕ → ℕ → Result LeaseRecord
new_lease host work claim_id owner_id lease_version time lease_seconds tenure_seconds = do
  let lease =
      acquired_lease host work claim_id owner_id lease_version time lease_seconds tenure_seconds
  guard (valid_lease lease) Error.lease_record_invalid
  ok lease

-- The tests of the time and the epoch under which a lease may be renewed.
unfoldable pub assert_renewable : LeaseRecord → ℕ → Result (Unit {0})
assert_renewable current time = do
  guard (leb current.renewed_at time) Error.clock_rolled_back
  guard (ltb time current.absolute_expires_at) Error.lease_tenure_expired
  guard (ltb time current.expires_at) Error.lease_expired

unfoldable pub renewed_lease :
    LeaseHost → LeaseRecord → RunnableWork → RenewRequest → ℕ → Result LeaseRecord
renewed_lease host current work request time = do
  guard (current.runtime_epoch == host.runtime_epoch) Error.lease_epoch_fenced
  assert_claim_binding current work request.claim_id request.owner_id request.expected_lease_version
  assert_renewable current time
  let next_expiry = minimum (time + request.lease_seconds) current.absolute_expires_at
  guard (ltb current.expires_at next_expiry) Error.lease_renewal_not_extended
  ok (record current {
    lease_version = current.lease_version + 1;
    renewed_at = time;
    expires_at = next_expiry;
  })

unfoldable pub reclaimed_lease :
    LeaseHost → LeaseRecord → RunnableWork → ReclaimRequest → ℕ → Result LeaseRecord
reclaimed_lease host current work request time = do
  let epoch_changed = current.runtime_epoch != host.runtime_epoch
  guard (epoch_changed || leb current.renewed_at time) Error.clock_rolled_back
  guard (epoch_changed || leb current.expires_at time) Error.lease_still_active
  new_lease host work request.claim_id request.owner_id (current.lease_version + 1) time
      request.lease_seconds request.max_tenure_seconds

-- The operation is the one of the request: `claim`, `renew` and `reclaim` are the only callers.
unfoldable pub lease_at_commit :
    LeaseHost → Option LeaseTransaction → RunnableWork → LeaseRequest → ℕ → Result LeaseRecord
lease_at_commit host none work (claim_request r) time =
    new_lease host work r.claim_id r.owner_id 1 time r.lease_seconds r.max_tenure_seconds
lease_at_commit host (some last) work (claim_request r) time =
    err Error.lease_concurrent_modification
lease_at_commit host none work (renew_request r) time = err Error.lease_not_found
lease_at_commit host (some last) work (renew_request r) time =
    renewed_lease host last.lease work r time
lease_at_commit host none work (reclaim_request r) time = err Error.lease_not_found
lease_at_commit host (some last) work (reclaim_request r) time =
    reclaimed_lease host last.lease work r time

abbrev pub operation_of : LeaseRequest → LeaseOperation
operation_of (claim_request r) = LeaseOperation.claim
operation_of (renew_request r) = LeaseOperation.renew
operation_of (reclaim_request r) = LeaseOperation.reclaim

abbrev pub request_id_of : LeaseRequest → String
request_id_of (claim_request r) = r.request_id
request_id_of (renew_request r) = r.request_id
request_id_of (reclaim_request r) = r.request_id

unfoldable pub assert_previous_clock :
    LeaseOperation → Option LeaseTransaction → ℕ → Result (Unit {0})
assert_previous_clock LeaseOperation.claim last time = ok tt
assert_previous_clock LeaseOperation.reclaim last time = ok tt
assert_previous_clock LeaseOperation.renew none time = err Error.lease_history_invalid
assert_previous_clock LeaseOperation.renew (some last) time = do
  guard (ltb time last.lease.absolute_expires_at) Error.lease_tenure_expired
  guard (ltb time last.lease.expires_at) Error.lease_expired

unfoldable pub assert_commit_clock :
    LeaseOperation → Option LeaseTransaction → LeaseRecord → ℕ → Result (Unit {0})
assert_commit_clock operation last lease time = do
  guard (leb lease.renewed_at time) Error.clock_rolled_back
  assert_previous_clock operation last time
  guard (ltb time lease.absolute_expires_at) Error.lease_tenure_expired
  guard (ltb time lease.expires_at) Error.lease_expired
