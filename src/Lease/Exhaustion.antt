-- ===== src/Lease/Exhaustion.antt =====
-- The proof of xsync_v2/lease_store.py that a work has used up its tenures, and its later check.
use x_sync.Prelude.{
  Error, List, Result, String, String-eq, any, err, guard, leb, none, not, ok, some, ℕ, ℕ-eq, ◌!=◌,
  ◌&&◌, ◌==◌, ◌>>=◌, ◌>>◌, ◌||◌,
}
use x_sync.Identity.{Sha256}
use x_sync.Lease.Clock.{Calls, LeaseHost, now, verify_runtime}
use x_sync.Lease.Encode.{LeaseDigests}
use x_sync.Lease.History.{valid_history}
use x_sync.Lease.Model.{LeaseExhaustionProof, LeaseExhaustionProof-eq, LeaseTransaction}
use x_sync.Lease.Requests.{max_reclaims_per_work, valid_exhaustion_proof}
use x_sync.Lease.Store.{has_owner, reclaim_check}
use x_sync.Lease.Terms.{last_transaction, reclaims_of}
use x_sync.Text.{is_protocol_id, is_sha256_digest}
use x_sync.Work.{RunnableWork, validate_runnable_work}

module _ ⦃h : Sha256⦄ ⦃digests : LeaseDigests⦄ where
  unfoldable pub proof_of :
      RunnableWork
      → ℕ
      → List LeaseTransaction
      → LeaseTransaction
      → String
      → String
      → String
      → String
      → LeaseExhaustionProof
  proof_of work work_attempt history last epoch owner_id request_id request_digest = record {
    session_id = work.session_id;
    work_id = work.work_id;
    binding_digest = work.binding_digest;
    work_attempt = work_attempt;
    reclaim_count = reclaims_of history;
    last_lease_version = last.lease.lease_version;
    history_digest = digests.digest_of_history history;
    requesting_runtime_epoch = epoch;
    requesting_owner_id = owner_id;
    reclaim_request_id = request_id;
    reclaim_request_digest = request_digest;
  }

  -- `_exhaustion_proof`, for the last transaction of the history.
  unfoldable pub exhaustion_proof :
      RunnableWork
      → ℕ
      → List LeaseTransaction
      → LeaseTransaction
      → String
      → String
      → String
      → String
      → Result LeaseExhaustionProof
  exhaustion_proof work work_attempt history last epoch owner_id request_id request_digest = do
    validated ← validate_runnable_work work
    guard (valid_history history) Error.lease_history_invalid
    guard
        ((reclaims_of history == max_reclaims_per_work)
          && (last.lease.work_id == work.work_id)
          && (last.lease.binding_digest == work.binding_digest)
          && is_protocol_id epoch
          && is_protocol_id owner_id
          && is_protocol_id request_id
          && is_sha256_digest request_digest)
        Error.lease_reclaim_not_exhausted
    let proof = proof_of work work_attempt history last epoch owner_id request_id request_digest
    guard (valid_exhaustion_proof proof) Error.lease_exhaustion_proof_invalid
    ok proof

  -- `_assert_exhausted_for_work` on the last transaction of the history.
  unfoldable pub assert_exhausted_last :
      LeaseHost
      → LeaseExhaustionProof
      → RunnableWork
      → ℕ
      → List LeaseTransaction
      → LeaseTransaction
      → Calls
      → Result Calls
  assert_exhausted_last host proof work work_attempt history last calls = do
    expected ←
        exhaustion_proof work work_attempt history last proof.requesting_runtime_epoch
          proof.requesting_owner_id proof.reclaim_request_id proof.reclaim_request_digest
    guard (proof == expected) Error.lease_exhaustion_proof_invalid
    guard (proof.requesting_runtime_epoch == host.runtime_epoch)
        Error.lease_exhaustion_proof_invalid
    guard (not (any (has_owner proof.requesting_owner_id) history))
        Error.lease_exhaustion_proof_invalid
    let epoch_changed = last.lease.runtime_epoch != proof.requesting_runtime_epoch
    reading ← now host calls
    guard (epoch_changed || leb last.lease.renewed_at reading.value) Error.clock_rolled_back
    guard (epoch_changed || leb last.lease.expires_at reading.value)
        Error.lease_reclaim_not_exhausted
    verify_runtime host (reclaim_check host proof.requesting_owner_id last.lease) reading.calls

  unfoldable pub assert_exhausted_for_work :
      LeaseHost
      → LeaseExhaustionProof
      → RunnableWork
      → ℕ
      → List LeaseTransaction
      → Calls
      → Result Calls
  assert_exhausted_for_work host proof work work_attempt history calls = do
    guard (valid_exhaustion_proof proof) Error.lease_exhaustion_proof_invalid
    validated ← validate_runnable_work work
    guard ((proof.session_id == work.session_id) && (proof.work_id == work.work_id))
        Error.work_superseded
    elim (last_transaction history) [
      | none ↦ err Error.lease_not_found
      | some last ↦ assert_exhausted_last host proof work work_attempt history last calls
    ]
