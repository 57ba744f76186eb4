-- ===== src/Reduce/Recover.antt =====
-- xsync_v2/state_machine.py: the branch of `reduce` for `WorkRecoveryRequested`.
use x_sync.Prelude.{
  Error, Option-eq, Result, err, has, if◌then◌else◌, is_none, none, not, ok, some, ◌&&◌, ◌==◌,
  ◌>>=◌, ◌>>◌,
}
use x_sync.Domain.{
  CommittedDialogueEvent, ConversationPhase, ConversationPhase-eq, CurrentWorkState,
  CurrentWorkState-eq, DialogueState, EvidenceCheck, TopicRunState, TopicRunState-eq,
  WorkRecoveryAction, WorkRecoveryAction-eq, WorkRecoveryRequested,
}
use x_sync.Decide.Work.{DeadWork, dead_work_target, recovers}
use x_sync.Identity.{Sha256}
use x_sync.Reduce.Envelope.{advance, require}
use x_sync.Reduce.Resume.{reactivated, regrounded, resumed_state}
use x_sync.Reduce.Turn.{waiting_on}
use x_sync.Validate.Shapes.{valid_evidence}
use x_sync.Validate.Work.{queued_work_from_event}

-- The Run that a recovery goes on with; a reground makes its gates and entries stale.
unfoldable pub recovered_topic :
    TopicRunState → WorkRecoveryAction → EvidenceCheck → CurrentWorkState → TopicRunState
recovered_topic topic WorkRecoveryAction.retry evidence work =
    let active = reactivated topic evidence in
    record active { current_agent_turn = none; work = some work }
recovered_topic topic WorkRecoveryAction.reground evidence work =
    regrounded (reactivated topic evidence) work

unfoldable pub recover_session :
    DialogueState → CommittedDialogueEvent → DeadWork → CurrentWorkState → Result DialogueState
recover_session state event target work = do
  require (
      not target.paused
      && (state.phase == ConversationPhase.recoverable_error)
      && (state.session_work == some target.work))
  let next_state = advance state event
  ok (record next_state { session_work = some work; phase = ConversationPhase.waiting_host })

unfoldable pub recover_paused :
    DialogueState → CommittedDialogueEvent → TopicRunState → TopicRunState → Result DialogueState
recover_paused state event target_topic topic = do
  require ((state.phase == ConversationPhase.none_phase) && is_none state.active_topic)
  ok (resumed_state state event target_topic.topic_run_id topic ConversationPhase.waiting_host)

unfoldable pub recover_active :
    DialogueState → CommittedDialogueEvent → TopicRunState → TopicRunState → Result DialogueState
recover_active state event target_topic topic = do
  require (
      (state.phase == ConversationPhase.recoverable_error)
      && (state.active_topic == some target_topic))
  ok (waiting_on state event topic)

unfoldable pub reduce_recovery_on :
    DialogueState
    → DeadWork
    → CommittedDialogueEvent
    → WorkRecoveryRequested
    → CurrentWorkState
    → Result DialogueState
reduce_recovery_on state target event payload work = elim target.topic [
  | none ↦ recover_session state event target work
  | some topic ↦
      let recovered = recovered_topic topic payload.action payload.evidence work in
      if target.paused
      then recover_paused state event topic recovered
      else recover_active state event topic recovered
]

module _ ⦃h : Sha256⦄ where
  unfoldable pub reduce_recovery :
      DialogueState
      → DeadWork
      → CommittedDialogueEvent
      → WorkRecoveryRequested
      → Result DialogueState
  reduce_recovery state target event payload = do
    require
        (has payload.action target.work.allowed_recovery_actions && valid_evidence payload.evidence)
    require (recovers target payload.action payload.next_trigger payload.evidence)
    work ← queued_work_from_event state.session_id event payload.next_trigger 1 none
    reduce_recovery_on state target event payload work

  unfoldable pub reduce_work_recovery_requested :
      DialogueState → CommittedDialogueEvent → WorkRecoveryRequested → Result DialogueState
  reduce_work_recovery_requested state event payload =
      elim (dead_work_target state payload.dead_work_id) [
        | none ↦ err Error.illegal_event_transition
        | some target ↦ reduce_recovery state target event payload
      ]
