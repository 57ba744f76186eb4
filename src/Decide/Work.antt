-- ===== src/Decide/Work.antt =====
-- xsync_v2/state_machine.py: `_current_nonterminal_work`, and `_report_work_failure` to
-- `_recover_work`.
use x_sync.Prelude.{
  Bool, List, Option, String, String-eq, [], false, has, if◌then◌else◌, is_some, keep, ltb, none,
  not, some, true, when, ◌!=◌, ◌&&◌, ◌+◌, ◌==◌, ◌||◌, ◌∷◌,
}
use x_sync.Domain.{
  ConversationPhase, ConversationPhase-eq, CurrentWorkState, DecisionContext, DialogueEventPayload,
  DialogueState, EvidenceCheck, RecoverWork, ReportWorkFailure, TopicRunState, TriggerBinding,
  WorkFailure, WorkRecoveryAction, WorkRecoveryAction-eq, WorkStatus, WorkStatus-eq,
  work_dead_lettered, work_failed, work_recovery_requested, work_requeued,
}
use x_sync.Decide.Guards.{reground_trigger_matches}
use x_sync.Decide.Turn.{on_work}
use x_sync.Decision.{Code, Decision, accept, accepted, on_trigger, pending, rejected}
use x_sync.Identity.{is_canonical_trigger_binding}
use x_sync.Rules.{is_retryable, max_automatic_work_attempts}
use x_sync.Text.{valid_text}
use x_sync.Validate.Shapes.{valid_work_failure}
use x_sync.Validate.State.{active_work, is_dead_status, is_waiting_status}
use x_sync.Validate.Work.{allowed_recovery_actions, retry_trigger_matches}

unfoldable pub is_nonterminal : CurrentWorkState → Bool
is_nonterminal work = is_waiting_status work.status || is_dead_status work.status

-- The work item, if it is not terminal.
unfoldable pub nonterminal : Option CurrentWorkState → Option CurrentWorkState
nonterminal none = none
nonterminal (some work) = if is_nonterminal work then some work else none

-- The only value of the two.
unfoldable pub only {ℓ} : {A : Type ℓ} → Option A → Option A → Option A
only (some a) none = some a
only none (some b) = some b
only _ _ = none

unfoldable pub current_nonterminal_work : DialogueState → Option CurrentWorkState
current_nonterminal_work state =
    only (nonterminal state.session_work) (nonterminal (active_work state))

unfoldable pub failed_event : CurrentWorkState → WorkFailure → DialogueEventPayload
failed_event work failure = work_failed (record {
  work_id = work.work_id;
  trigger = work.trigger;
  attempt = work.attempt;
  failure = failure;
})

unfoldable pub requeued_event :
    CurrentWorkState → WorkFailure → TriggerBinding → DialogueEventPayload
requeued_event work failure next_trigger = work_requeued (record {
  failed_work_id = work.work_id;
  failed_trigger = work.trigger;
  failed_attempt = work.attempt;
  failure = failure;
  next_trigger = next_trigger;
  next_attempt = work.attempt + 1;
})

unfoldable pub dead_lettered_event :
    CurrentWorkState → WorkFailure → List WorkRecoveryAction → DialogueEventPayload
dead_lettered_event work failure allowed_actions = work_dead_lettered (record {
  failed_work_id = work.work_id;
  failed_trigger = work.trigger;
  failed_attempt = work.attempt;
  failure = failure;
  allowed_actions = allowed_actions;
})

unfoldable pub report_work_failure_on :
    DialogueState → CurrentWorkState → ReportWorkFailure → DecisionContext → Decision
report_work_failure_on state work command context =
    if work.status != WorkStatus.queued
    then rejected Code.topic_state_conflict
    else if not (valid_text command.work_id) || not (valid_work_failure command.failure)
    then rejected Code.validation_failed
    else if context.evidence.evidence_digest != work.trigger.evidence_digest
    then rejected Code.validation_failed
    else if command.work_id != work.work_id
    then rejected Code.work_superseded
    else if is_retryable command.failure.category && ltb work.attempt max_automatic_work_attempts
    then on_trigger context.trigger Code.validation_failed (λ next_trigger.
      if not (is_canonical_trigger_binding next_trigger)
        || not (retry_trigger_matches work.trigger next_trigger)
      then rejected Code.validation_failed
      else accepted (
          pending command.command_id (failed_event work command.failure)
          ∷ pending command.command_id (requeued_event work command.failure next_trigger)
          ∷ []))
    else if is_some context.trigger
    then rejected Code.validation_failed
    else accepted (
        pending command.command_id (failed_event work command.failure)
        ∷ pending command.command_id
            (dead_lettered_event work command.failure (allowed_recovery_actions state))
        ∷ [])

unfoldable pub report_work_failure_handler :
    DialogueState → ReportWorkFailure → DecisionContext → Decision
report_work_failure_handler state command context =
    if state.phase != ConversationPhase.waiting_host
    then rejected Code.topic_state_conflict
    else on_work (current_nonterminal_work state)
        (λ work. report_work_failure_on state work command context)

-- The result of `_dead_work_target`: the work item, its Run and whether the Run is paused.
pub record DeadWork : Type 0 where
  pub work : CurrentWorkState
  pub topic : Option TopicRunState
  pub paused : Bool

unfoldable pub is_dead_work : String → CurrentWorkState → Bool
is_dead_work work_id work = (work.status == WorkStatus.dead_letter) && (work.work_id == work_id)

unfoldable pub holds_dead_work : String → Option CurrentWorkState → Bool
holds_dead_work work_id work = when false (is_dead_work work_id) work

-- The only paused Run with the dead work item.
unfoldable pub paused_target : List TopicRunState → Option DeadWork
paused_target (topic ∷ []) = elim topic.work [
  | none ↦ none
  | some work ↦ some (record { work = work; topic = some topic; paused = true })
]
paused_target _ = none

unfoldable pub active_target : String → DialogueState → Option DeadWork
active_target work_id state = elim state.active_topic [
  | none ↦ none
  | some topic ↦ elim topic.work [
    | none ↦ none
    | some work ↦
        if is_dead_work work_id work
        then some (record { work = work; topic = some topic; paused = false })
        else none
  ]
]

unfoldable pub session_target : String → DialogueState → Option DeadWork
session_target work_id state = elim state.session_work [
  | none ↦ none
  | some work ↦
      if is_dead_work work_id work
      then some (record { work = work; topic = none; paused = false })
      else none
]

-- The first of two results, or else the second.
abbrev pub or_else {ℓ} : {A : Type ℓ} → Option A → Option A → Option A
or_else (some a) b = some a
or_else none b = b

unfoldable pub dead_work_target : DialogueState → String → Option DeadWork
dead_work_target state work_id = or_else (session_target work_id state) (
    or_else (active_target work_id state) (
      paused_target
        (keep (λ (topic : TopicRunState). holds_dead_work work_id topic.work) state.paused_topics)))

-- `valid_trigger and valid_evidence` of `_recover_work`.
unfoldable pub recovers : DeadWork → WorkRecoveryAction → TriggerBinding → EvidenceCheck → Bool
recovers target WorkRecoveryAction.retry trigger evidence =
    retry_trigger_matches target.work.trigger trigger
    && (evidence.evidence_digest == target.work.trigger.evidence_digest)
recovers target WorkRecoveryAction.reground trigger evidence =
    is_some target.topic && reground_trigger_matches target.work.trigger trigger evidence

unfoldable pub recover_work_on : DialogueState → DeadWork → RecoverWork → DecisionContext → Decision
recover_work_on state target command context =
    if not (has command.action target.work.allowed_recovery_actions)
    then rejected Code.validation_failed
    else on_trigger context.trigger Code.validation_failed λ trigger.
      if not (recovers target command.action trigger context.evidence)
      then rejected Code.validation_failed
      else if target.paused
          && (state.phase != ConversationPhase.none_phase || is_some state.active_topic)
      then rejected Code.topic_state_conflict
      else if not target.paused && state.phase != ConversationPhase.recoverable_error
      then rejected Code.topic_state_conflict
      else accept command.command_id (
          work_recovery_requested (record {
            dead_work_id = target.work.work_id;
            action = command.action;
            next_trigger = trigger;
            evidence = context.evidence;
          }))

unfoldable pub recover_work_handler : DialogueState → RecoverWork → DecisionContext → Decision
recover_work_handler state command context =
    if not (valid_text command.dead_work_id)
    then rejected Code.validation_failed
    else elim (dead_work_target state command.dead_work_id) [
      | none ↦ rejected Code.topic_state_conflict
      | some target ↦ recover_work_on state target command context
    ]
