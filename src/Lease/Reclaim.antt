-- ===== src/Lease/Reclaim.antt =====
-- `reclaim` of xsync_v2/lease_store.py.
use x_sync.Prelude.{
  Bool-eq, Error, List, List-eq, Option, Option-eq, Result, String-eq, err, guard, if◌then◌else◌,
  leb, none, ok, some, ℕ-eq, ◌!=◌, ◌==◌, ◌>>=◌, ◌>>◌,
}
use x_sync.Domain.{
  AgentTurnResult-eq, ConversationPhase-eq, CurrentWorkState-eq, EvidenceHealth-eq, ExportStatus-eq,
  GateAssessment-eq, GateId-eq, GateRequirement-eq, GateStatus-eq, InsightKind-eq,
  InsightProvenance-eq, InsightStatus-eq, LearnerModelEntry-eq, Lens-eq, PauseCause-eq,
  QuestionIntent-eq, SessionLifecycle-eq, TaskScope-eq, TopicClarification-eq, TopicContract-eq,
  TopicLifecycle-eq, TopicRunState-eq, TopicSummary-eq, TriggerBinding-eq, TriggerKind-eq,
  WorkFailure-eq, WorkFailureCategory-eq, WorkRecoveryAction-eq, WorkStatus-eq,
}
use x_sync.Identity.{Sha256}
use x_sync.Lease.Clock.{Calls, LeaseHost}
use x_sync.Lease.Commit.{Committed, commit, replay_receipt}
use x_sync.Lease.Current.{current_runnable}
use x_sync.Lease.Encode.{LeaseDigests}
use x_sync.Lease.Exhaustion.{exhaustion_proof}
use x_sync.Lease.Model.{
  AuthoritativeWorkSnapshot, CurrentRunnableWork, LeaseExhaustionProof, LeaseExhaustionProof-eq,
  LeaseOperation, LeaseOperation-eq, LeaseTransaction, ReclaimOutcome, ReclaimRequest, exhausted,
  reclaim_request, reclaimed,
}
use x_sync.Lease.Requests.{max_reclaims_per_work, valid_reclaim_request}
use x_sync.Lease.Store.{assert_reclaim_eligible, reclaim_check, replayed_outcome}
use x_sync.Lease.Terms.{last_transaction, reclaims_of}
use x_sync.Registry.Model.{
  ActivateTarget-eq, ActivationKind-eq, DialogueRegistrationStatus-eq, RegisteredDialogue-eq,
}

-- What `reclaim` returns, with the transactions of the work and the calls behind it.
pub record Reclaimed : Type 0 where
  pub outcome : ReclaimOutcome
  pub transactions : List LeaseTransaction
  pub calls : Calls

abbrev pub reclaimed_by : Committed → Reclaimed
reclaimed_by committed = record {
  outcome = reclaimed committed.outcome;
  transactions = committed.transactions;
  calls = committed.calls;
}

-- An exhausted work: only an eligible request gets the proof, unless the work is no longer current.
unfoldable pub exhausted_outcome :
    LeaseHost
    → ReclaimRequest
    → List LeaseTransaction
    → LeaseTransaction
    → Calls
    → LeaseExhaustionProof
    → Result (Option CurrentRunnableWork)
    → Result Reclaimed
exhausted_outcome host request history last calls proof (err Error.session_deactivated) =
    ok (record { outcome = exhausted proof; transactions = history; calls = calls })
exhausted_outcome host request history last calls proof (err code) = err code
exhausted_outcome host request history last calls proof (ok none) =
    ok (record { outcome = exhausted proof; transactions = history; calls = calls })
exhausted_outcome host request history last calls proof (ok (some current)) =
    if current.work.work_id != request.work_id
    then ok (record { outcome = exhausted proof; transactions = history; calls = calls })
    else assert_reclaim_eligible host request current history last calls >>= (λ checked.
      ok (record { outcome = exhausted proof; transactions = history; calls = checked }))

module _ ⦃h : Sha256⦄ ⦃digests : LeaseDigests⦄ where
  -- The branch of `reclaim` for a work that has had its tenures.
  unfoldable pub reclaim_exhausted :
      LeaseHost
      → AuthoritativeWorkSnapshot
      → ReclaimRequest
      → List LeaseTransaction
      → LeaseTransaction
      → Calls
      → Result Reclaimed
  reclaim_exhausted host snapshot request history last calls = do
    proof ←
        exhaustion_proof last.work request.expected_work_attempt history last host.runtime_epoch
          request.owner_id request.request_id
          (digests.digest_of_request LeaseOperation.reclaim (reclaim_request request))
    exhausted_outcome host request history last calls proof
        (current_runnable request.session_id snapshot)

  -- The branch of `reclaim` that starts a new tenure.
  unfoldable pub reclaim_current :
      LeaseHost
      → ReclaimRequest
      → List LeaseTransaction
      → List LeaseTransaction
      → LeaseTransaction
      → Calls
      → Option CurrentRunnableWork
      → Result Reclaimed
  reclaim_current host request history durable last calls none = err Error.work_superseded
  reclaim_current host request history durable last calls (some current) = do
    guard (current.work.work_id == request.work_id) Error.work_superseded
    checked ← assert_reclaim_eligible host request current history last calls
    committed ←
        commit host history durable current.work (reclaim_request request)
          (reclaim_check host request.owner_id last.lease) checked
    ok (reclaimed_by committed)

  unfoldable pub reclaim_last :
      LeaseHost
      → AuthoritativeWorkSnapshot
      → ReclaimRequest
      → List LeaseTransaction
      → List LeaseTransaction
      → LeaseTransaction
      → Calls
      → Result Reclaimed
  reclaim_last host snapshot request history durable last calls =
      if leb max_reclaims_per_work (reclaims_of history)
      then reclaim_exhausted host snapshot request history last calls
      else (do
        current ← current_runnable request.session_id snapshot
        reclaim_current host request history durable last calls current)

  unfoldable pub reclaim :
      LeaseHost
      → AuthoritativeWorkSnapshot
      → List LeaseTransaction
      → List LeaseTransaction
      → ReclaimRequest
      → Calls
      → Result Reclaimed
  reclaim host snapshot history durable request calls = do
    guard (valid_reclaim_request request) Error.invalid_reclaim_request
    replay ←
        replay_receipt history request.request_id
          (digests.digest_of_request LeaseOperation.reclaim (reclaim_request request))
    elim replay [
      | some outcome ↦ ok (reclaimed_by (replayed_outcome outcome history calls))
      | none ↦ elim (last_transaction history) [
        | none ↦ err Error.lease_not_found
        | some last ↦ reclaim_last host snapshot request history durable last calls
      ]
    ]
