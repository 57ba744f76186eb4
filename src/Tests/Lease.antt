-- ===== src/Tests/Lease.antt =====
-- The theorems on leases, at the first claim of a work item and its renewal.
use x_sync.Prelude.{
  Error, [], arith, err, false, length, ok, refl, some, true, ◌+◌, ◌<◌, ◌∷◌, ◌≡◌, ◌≤◌,
}
use x_sync.Identity.{HasHexDigests}
use x_sync.Laws.Lease.Bounds.{valid_history-bounds}
use x_sync.Laws.Lease.Claim.{claim_succeeds}
use x_sync.Laws.Lease.Fence.{commit_fences}
use x_sync.Laws.Lease.Replay.{claim_again, renew_again, renew_keeps}
use x_sync.Laws.Lease.Tenure.{commit-tenured, is_tenured}
use x_sync.Laws.Runnable.{derive_runnable_work_total}
use x_sync.Lease.Commit.{Committed}
use x_sync.Lease.Current.{load_current_work}
use x_sync.Lease.Model.{LeaseOperation, LeaseTransaction, renew_request}
use x_sync.Lease.Publish.{assert_publishable_for_work}
use x_sync.Lease.Requests.{same_claim, valid_claim_request}
use x_sync.Lease.Store.{claim, claim_check, renew, replayed_outcome}
use x_sync.Lease.Terms.{reclaims_of}
use x_sync.Tests.Data.{candidates_trigger, digest, fixed_sha256}
use x_sync.Tests.Leases.{
  check, claim_lem, claimed, commit_lem, committed, fence, first_claim, first_lease, first_renewal,
  first_transaction, history_tenured, history_valid, host, no_calls, origin, publishable_lem,
  renew_lem, renewal_valid, renewed, snapshot, work, fixed_digests,
}
use x_sync.Tests.Open.{model}
use x_sync.Tests.Snapshots.{queued, started}
use x_sync.Text.{is_protocol_id, is_sha256_digest}
use x_sync.Validate.State.{is_valid_state}
use x_sync.Work.{
  RunnableWork, derive_runnable_work, origin_matches, queued_candidates, validate_runnable_work,
}

valid_history-bounds_example : (reclaims_of (first_transaction ∷ []) ≤ 2) × (1 ≤ 771)
valid_history-bounds_example = valid_history-bounds (first_transaction ∷ []) history_valid

commit_fences_example : ¬ (
    assert_publishable_for_work host fence work committed.transactions committed.calls
    ≡ ok first_lease)
commit_fences_example =
    commit_fences host host (first_transaction ∷ []) (first_transaction ∷ []) work work work
      (renew_request first_renewal) check claimed.calls claimed.calls committed.calls committed
      fence first_lease first_lease commit_lem refl publishable_lem

commit-tenured_example : is_tenured committed.outcome.lease ≡ true
commit-tenured_example =
    commit-tenured host (first_transaction ∷ []) (first_transaction ∷ []) work
      (renew_request first_renewal) check claimed.calls committed renewal_valid history_tenured
      commit_lem refl

claim_again_example :
    claim host snapshot claimed.transactions [] first_claim renewed.calls
    ≡ ok (
        replayed_outcome
          (record { operation = LeaseOperation.claim; lease = first_lease; replayed = true })
          claimed.transactions
          renewed.calls)
claim_again_example =
    claim_again host host snapshot snapshot [] [] no_calls renewed.calls claimed first_claim
      claim_lem refl

renew_again_example :
    renew host snapshot renewed.transactions [] first_renewal renewed.calls
    ≡ ok (
        replayed_outcome
          (record {
            operation = LeaseOperation.renew;
            lease = renewed.outcome.lease;
            replayed = true;
          })
          renewed.transactions
          renewed.calls)
renew_again_example =
    renew_again host host snapshot snapshot (first_transaction ∷ []) [] claimed.calls renewed.calls
      renewed first_renewal renew_lem refl

renew_keeps_example :
    (last : LeaseTransaction) × (some first_transaction ≡ some last)
    × (same_claim last.lease renewed.outcome.lease ≡ true)
    × (renewed.outcome.lease.lease_version ≡ last.lease.lease_version + 1)
    × (last.lease.expires_at < renewed.outcome.lease.expires_at)
    × (renewed.outcome.lease.expires_at ≤ last.lease.absolute_expires_at)
renew_keeps_example =
    renew_keeps host snapshot (first_transaction ∷ []) claimed.calls renewed first_renewal renew_lem
      refl

hex_lem : HasHexDigests fixed_sha256
unfolding model
hex_lem encoded = refl

started_valid : is_valid_state started ≡ true
unfolding model
started_valid = refl

started-queued : queued_candidates started ≡ queued candidates_trigger 1 ∷ []
unfolding model
started-queued = refl

origin_lem : origin_matches origin (queued candidates_trigger 1) ≡ true
unfolding model
origin_lem = refl

derive_runnable_work_total_example :
    (found : RunnableWork) × (derive_runnable_work started (some origin) ≡ ok (some found))
    × (validate_runnable_work found ≡ ok found)
    × (found.work_id ≡ work.work_id)
    × (found.observed_sequence ≡ 1)
derive_runnable_work_total_example =
    derive_runnable_work_total hex_lem started (queued candidates_trigger 1) origin started_valid
      refl refl started-queued origin_lem

snapshot_lem : load_current_work "sess-1" snapshot ≡ ok work
unfolding model
snapshot_lem = refl

claim_valid : valid_claim_request first_claim ≡ true
unfolding model
claim_valid = refl

epoch_valid : is_protocol_id "epoch-1" ≡ true
unfolding model
epoch_valid = refl

digest_lem : is_sha256_digest digest ≡ true
unfolding model
digest_lem = refl

owner_lem : host.runtime_authority_verifier 0 (claim_check host first_claim) ≡ some true
unfolding model
owner_lem = refl

claim_succeeds_example :
    (done : Committed) × (claim host snapshot [] [] first_claim no_calls ≡ ok done)
    × (done.outcome.lease ≡ first_lease)
    × (done.outcome.replayed ≡ false)
    × (length done.transactions ≡ 1)
claim_succeeds_example =
    claim_succeeds (λ operation q. digest_lem) (λ t. digest_lem) host snapshot first_claim work
      no_calls 10 13 15 claim_valid epoch_valid snapshot_lem refl (λ count. refl) (λ count. refl)
      (λ count. refl) (λ count. refl) (λ count. owner_lem) refl refl refl refl (omega arith)
      (omega arith) (omega arith) (omega arith)

-- Without the lock authority, and where the file cannot be written, the same claim raises.
lock_lost :
    claim
      (record host { assert_authority = λ calls. some Error.lock_error })
      snapshot
      []
      []
      first_claim
      no_calls
    ≡ err Error.lock_error
unfolding model
lock_lost = refl

disk_full :
    claim
      (record host { write_temporary = λ calls. some Error.secure_fs_error })
      snapshot
      []
      []
      first_claim
      no_calls
    ≡ err Error.secure_fs_error
unfolding model
disk_full = refl
