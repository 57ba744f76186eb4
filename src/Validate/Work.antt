-- ===== src/Validate/Work.antt =====
-- xsync_v2/state_machine.py: `_valid_current_work` to `_matching_trigger`.
use x_sync.Prelude.{
  Bool, List, Option, Option-eq, Result, String, String-eq, [], err, false, if◌then◌else◌,
  is_distinct, is_empty, is_none, is_some, leb, ltb, none, not, ok, some, true, when, ℕ, ℕ-eq, ◌!=◌,
  ◌&&◌, ◌==◌, ◌>>=◌, ◌||◌, ◌∷◌,
}
use x_sync.Domain.{
  CommittedDialogueEvent, CurrentWorkState, DialogueState, TriggerBinding, TriggerKind,
  TriggerKind-eq, WorkFailure, WorkRecoveryAction, WorkRecoveryAction-eq, WorkStatus,
}
use x_sync.Identity.{Sha256, derive_canonical_work_id, is_canonical_trigger_binding}
use x_sync.Rules.{is_retryable, max_automatic_work_attempts}
use x_sync.Text.{is_protocol_id}
use x_sync.Validate.Shapes.{valid_trigger, valid_work_failure}

-- The status of a work item against its attempt, failure and recovery actions: the last part of
-- `_valid_current_work`.
unfoldable pub valid_status : CurrentWorkState → WorkStatus → Bool
valid_status work WorkStatus.queued =
    is_empty work.allowed_recovery_actions && ((work.attempt == 1) || is_some work.last_failure)
valid_status work WorkStatus.failed =
    is_some work.last_failure && is_empty work.allowed_recovery_actions
valid_status work WorkStatus.dead_letter =
    is_some work.last_failure && not (is_empty work.allowed_recovery_actions)
valid_status work _ = is_empty work.allowed_recovery_actions

-- `expected_id == work.work_id`, where a derivation that raises gives no id.
unfoldable pub is_expected_id : Result String → String → Bool
is_expected_id (ok expected_id) work_id = work_id == expected_id
is_expected_id (err e) work_id = false

module _ ⦃h : Sha256⦄ where
  unfoldable pub valid_current_work : CurrentWorkState → String → ℕ → Bool
  valid_current_work work session_id observed_sequence =
      is_protocol_id work.work_id
      && is_protocol_id work.trigger_event_id
      && leb 1 work.trigger_event_sequence
      && leb work.trigger_event_sequence observed_sequence
      && is_canonical_trigger_binding work.trigger
      && leb 1 work.attempt
      && leb work.attempt max_automatic_work_attempts
      && when true valid_work_failure work.last_failure
      && is_distinct work.allowed_recovery_actions
      && is_expected_id
          (derive_canonical_work_id session_id work.trigger_event_id work.trigger_event_sequence
            work.trigger)
          work.work_id
      && valid_status work work.status

  unfoldable pub queued_work_from_event :
      String
      → CommittedDialogueEvent
      → TriggerBinding
      → ℕ
      → Option WorkFailure
      → Result CurrentWorkState
  queued_work_from_event session_id event trigger attempt last_failure = do
    work_id ← derive_canonical_work_id session_id event.event_id event.sequence trigger
    ok (record {
      work_id = work_id;
      trigger_event_id = event.event_id;
      trigger_event_sequence = event.sequence;
      trigger = trigger;
      attempt = attempt;
      status = WorkStatus.queued;
      last_failure = last_failure;
      allowed_recovery_actions = [];
    })

unfoldable pub retry_trigger_matches : TriggerBinding → TriggerBinding → Bool
retry_trigger_matches current candidate =
    (candidate.work_id != current.work_id)
    && (candidate.kind == current.kind)
    && (candidate.parent_turn_id == current.parent_turn_id)
    && (candidate.contract_digest == current.contract_digest)
    && (candidate.input_digest == current.input_digest)
    && (candidate.evidence_digest == current.evidence_digest)

unfoldable pub allowed_recovery_actions : DialogueState → List WorkRecoveryAction
allowed_recovery_actions state =
    if is_none state.active_topic
    then WorkRecoveryAction.retry ∷ []
    else WorkRecoveryAction.retry ∷ WorkRecoveryAction.reground ∷ []

unfoldable pub automatic_retry_allowed : CurrentWorkState → Bool
automatic_retry_allowed work =
    when false (λ (failure : WorkFailure). is_retryable failure.category) work.last_failure
    && ltb work.attempt max_automatic_work_attempts

unfoldable pub matching_trigger :
    Option TriggerBinding → TriggerKind → Option String → String → Option TriggerBinding
matching_trigger none kind contract_digest evidence_digest = none
matching_trigger (some trigger) kind contract_digest evidence_digest =
    if valid_trigger trigger kind contract_digest evidence_digest then some trigger else none
