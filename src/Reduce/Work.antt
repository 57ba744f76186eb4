-- ===== src/Reduce/Work.antt =====
-- xsync_v2/state_machine.py: `_replace_work`, and the branches of `reduce` for `WorkFailed`,
-- `WorkRequeued` and `WorkDeadLettered`.
use x_sync.Prelude.{
  Bool, Error, List, List-eq, Option, Option-eq, Result, String-eq, err, if◌then◌else◌, keep,
  length, map, none, not, ok, some, ℕ-eq, ◌&&◌, ◌+◌, ◌==◌, ◌>>=◌, ◌>>◌,
}
use x_sync.Domain.{
  CommittedDialogueEvent, ConversationPhase, ConversationPhase-eq, CurrentWorkState,
  CurrentWorkState-eq, DialogueState, TopicRunState, TriggerBinding-eq, WorkDeadLettered,
  WorkFailed, WorkFailure, WorkFailure-eq, WorkRecoveryAction, WorkRecoveryAction-eq, WorkRequeued,
  WorkStatus, WorkStatus-eq,
}
use x_sync.Decide.Work.{current_nonterminal_work}
use x_sync.Identity.{Sha256}
use x_sync.Reduce.Envelope.{advance, require}
use x_sync.Validate.Shapes.{valid_work_failure}
use x_sync.Validate.Work.{
  allowed_recovery_actions, automatic_retry_allowed, queued_work_from_event, retry_trigger_matches,
}

abbrev pub with_work : TopicRunState → CurrentWorkState → TopicRunState
with_work topic work = record topic { work = some work }

-- Python's `topic is matches[0]`: the only Run of the tuple with this work.
unfoldable pub replace_in : CurrentWorkState → CurrentWorkState → TopicRunState → TopicRunState
replace_in current replacement topic =
    if topic.work == some current then with_work topic replacement else topic

unfoldable pub holds_work : CurrentWorkState → TopicRunState → Bool
holds_work current topic = topic.work == some current

-- The last part of `_replace_work`, over the paused Runs.
unfoldable pub replace_paused_work :
    DialogueState → CurrentWorkState → CurrentWorkState → Result DialogueState
replace_paused_work state current replacement =
    if length (keep (holds_work current) state.paused_topics) == 1
    then ok
        (record state { paused_topics = map (replace_in current replacement) state.paused_topics })
    else err Error.state_invariant_violation

unfoldable pub replace_work :
    DialogueState → CurrentWorkState → CurrentWorkState → Result DialogueState
replace_work state current replacement =
    if state.session_work == some current
    then ok (record state { session_work = some replacement })
    else elim state.active_topic [
      | none ↦ replace_paused_work state current replacement
      | some topic ↦
          if topic.work == some current
          then ok (record state { active_topic = some (with_work topic replacement) })
          else replace_paused_work state current replacement
    ]

-- A branch that needs the current work item.
abbrev pub need_work :
    Option CurrentWorkState → (CurrentWorkState → Result DialogueState) → Result DialogueState
need_work none rest = err Error.illegal_event_transition
need_work (some work) rest = rest work

unfoldable pub failed_work : CurrentWorkState → WorkFailure → CurrentWorkState
failed_work work failure = record work { status = WorkStatus.failed; last_failure = some failure }

unfoldable pub reduce_work_failed :
    DialogueState → CommittedDialogueEvent → WorkFailed → Result DialogueState
reduce_work_failed state event payload = need_work (current_nonterminal_work state) λ work. do
  require (
      (state.phase == ConversationPhase.waiting_host)
      && (work.status == WorkStatus.queued)
      && (payload.work_id == work.work_id)
      && (payload.trigger == work.trigger)
      && (payload.attempt == work.attempt)
      && valid_work_failure payload.failure)
  replace_work (advance state event) work (failed_work work payload.failure)

module _ ⦃h : Sha256⦄ where
  unfoldable pub reduce_work_requeued :
      DialogueState → CommittedDialogueEvent → WorkRequeued → Result DialogueState
  reduce_work_requeued state event payload = need_work (current_nonterminal_work state) λ work. do
    require (
        (state.phase == ConversationPhase.waiting_host)
        && (work.status == WorkStatus.failed)
        && (payload.failed_work_id == work.work_id)
        && (payload.failed_trigger == work.trigger)
        && (payload.failed_attempt == work.attempt)
        && (some payload.failure == work.last_failure)
        && (payload.next_attempt == work.attempt + 1)
        && automatic_retry_allowed work
        && retry_trigger_matches work.trigger payload.next_trigger)
    next_work ←
        queued_work_from_event state.session_id event payload.next_trigger payload.next_attempt
          (some payload.failure)
    replace_work (advance state event) work next_work

unfoldable pub dead_work : CurrentWorkState → List WorkRecoveryAction → CurrentWorkState
dead_work work allowed_actions = record work {
  status = WorkStatus.dead_letter;
  allowed_recovery_actions = allowed_actions;
}

unfoldable pub reduce_work_dead_lettered :
    DialogueState → CommittedDialogueEvent → WorkDeadLettered → Result DialogueState
reduce_work_dead_lettered state event payload = need_work (current_nonterminal_work state) λ work.
    do
      require (
          (state.phase == ConversationPhase.waiting_host)
          && (work.status == WorkStatus.failed)
          && (payload.failed_work_id == work.work_id)
          && (payload.failed_trigger == work.trigger)
          && (payload.failed_attempt == work.attempt)
          && (some payload.failure == work.last_failure)
          && not (automatic_retry_allowed work)
          && (payload.allowed_actions == allowed_recovery_actions state))
      next_state ← replace_work (advance state event) work (dead_work work payload.allowed_actions)
      ok (record next_state { phase = ConversationPhase.recoverable_error })
