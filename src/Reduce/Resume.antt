-- ===== src/Reduce/Resume.antt =====
-- xsync_v2/state_machine.py: the branch of `reduce` for `TopicResumed`.
use x_sync.Prelude.{
  Bool-eq, Error, List, Option, Result, String, String-eq, err, if◌then◌else◌, is_none, is_some,
  keep, map, none, ok, some, ◌!=◌, ◌&&◌, ◌==◌, ◌>>=◌, ◌>>◌,
}
use x_sync.Domain.{
  CommittedDialogueEvent, ConversationPhase, ConversationPhase-eq, CurrentWorkState, DialogueState,
  EvidenceCheck, GateAssessment, GateStatus, InsightStatus, InsightStatus-eq, LearnerModelEntry,
  TopicLifecycle, TopicResumed, TopicRunState, TriggerBinding, TriggerKind, WorkStatus,
  WorkStatus-eq, open_question_id,
}
use x_sync.Decide.Export.{single}
use x_sync.Decide.Resume.{requires_reground, resumes}
use x_sync.Identity.{Sha256}
use x_sync.Reduce.Envelope.{advance, require}
use x_sync.Reduce.Topic.{need_topic}
use x_sync.Text.{valid_text}
use x_sync.Validate.Shapes.{valid_evidence, valid_trigger}
use x_sync.Validate.Work.{queued_work_from_event}

unfoldable pub matching_runs : String → List TopicRunState → List TopicRunState
matching_runs topic_run_id = keep (λ (item : TopicRunState). item.topic_run_id == topic_run_id)

unfoldable pub other_runs : String → List TopicRunState → List TopicRunState
other_runs topic_run_id = keep (λ (item : TopicRunState). item.topic_run_id != topic_run_id)

-- A gate that was assessed is stale after a reground.
unfoldable pub stale_gate : GateAssessment → GateAssessment
stale_gate item = elim item.status [
  | GateStatus.emerging ↦ record item { status = GateStatus.stale }
  | GateStatus.assisted ↦ record item { status = GateStatus.stale }
  | GateStatus.supported ↦ record item { status = GateStatus.stale }
  | _ ↦ item
]

-- A confirmed entry is stale after a reground.
unfoldable pub stale_entry : LearnerModelEntry → LearnerModelEntry
stale_entry item =
    if item.status == InsightStatus.confirmed
    then record item { status = InsightStatus.stale }
    else item

-- The Run, active again, with the evidence of the event.
unfoldable pub reactivated : TopicRunState → EvidenceCheck → TopicRunState
reactivated topic evidence = record topic {
  lifecycle = TopicLifecycle.active;
  evidence_health = evidence.health;
  evidence_digest = evidence.evidence_digest;
  exact_recheck_fingerprint = evidence.exact_recheck_fingerprint;
}

-- The Run with a work item that grounds it anew.
unfoldable pub regrounded : TopicRunState → CurrentWorkState → TopicRunState
regrounded topic work = record topic {
  current_agent_turn = none;
  work = some work;
  gates = map stale_gate topic.gates;
  learner_model = map stale_entry topic.learner_model;
}

-- The end of the branch.
unfoldable pub resumed_state :
    DialogueState
    → CommittedDialogueEvent
    → String
    → TopicRunState
    → ConversationPhase
    → DialogueState
resumed_state state event topic_run_id active phase =
    let next_state = advance state event in
    record next_state {
      active_topic = some active;
      paused_topics = other_runs topic_run_id state.paused_topics;
      phase = phase;
    }

module _ ⦃h : Sha256⦄ where
  unfoldable pub reduce_reground :
      DialogueState
      → TopicRunState
      → CommittedDialogueEvent
      → TopicResumed
      → Option TriggerBinding
      → Result DialogueState
  reduce_reground state paused event payload none = err Error.illegal_event_transition
  reduce_reground state paused event payload (some trigger) = do
    require (
        valid_trigger trigger TriggerKind.reground (some paused.contract.contract_digest)
          payload.evidence.evidence_digest)
    work ← queued_work_from_event state.session_id event trigger 1 none
    ok (
        resumed_state state event payload.topic_run_id
          (regrounded (reactivated paused payload.evidence) work) ConversationPhase.waiting_host)

  unfoldable pub reduce_resumed_work :
      DialogueState
      → TopicRunState
      → CurrentWorkState
      → CommittedDialogueEvent
      → TopicResumed
      → Option TriggerBinding
      → Result DialogueState
  reduce_resumed_work state paused saved event payload none = err Error.illegal_event_transition
  reduce_resumed_work state paused saved event payload (some trigger) = do
    require (saved.status == WorkStatus.superseded)
    require (
        valid_trigger trigger saved.trigger.kind (some paused.contract.contract_digest)
          payload.evidence.evidence_digest
        && resumes saved.trigger trigger)
    work ← queued_work_from_event state.session_id event trigger 1 none
    let active = reactivated paused payload.evidence
    ok (
        resumed_state state event payload.topic_run_id (record active { work = some work })
          ConversationPhase.waiting_host)

  -- The branches `active.open_question_id is not None`, `active.work is not None` and `else`.
  unfoldable pub reduce_kept :
      DialogueState → TopicRunState → CommittedDialogueEvent → TopicResumed → Result DialogueState
  reduce_kept state paused event payload =
      if is_some (open_question_id paused)
      then (do
        require (is_none payload.resumed_trigger)
        require (is_none paused.work)
        ok (
            resumed_state state event payload.topic_run_id (reactivated paused payload.evidence)
              ConversationPhase.awaiting_user))
      else elim paused.work [
        | none ↦ err Error.state_invariant_violation
        | some saved ↦ reduce_resumed_work state paused saved event payload payload.resumed_trigger
      ]

  unfoldable pub reduce_resumed_on :
      DialogueState → TopicRunState → CommittedDialogueEvent → TopicResumed → Result DialogueState
  reduce_resumed_on state paused event payload = do
    require (payload.requires_reground == requires_reground payload.evidence paused)
    if requires_reground payload.evidence paused
        then reduce_reground state paused event payload payload.resumed_trigger
        else reduce_kept state paused event payload

  unfoldable pub reduce_topic_resumed :
      DialogueState → CommittedDialogueEvent → TopicResumed → Result DialogueState
  reduce_topic_resumed state event payload = do
    require (
        valid_text payload.topic_run_id
        && valid_evidence payload.evidence
        && (state.phase == ConversationPhase.none_phase)
        && is_none state.active_topic)
    need_topic (single (matching_runs payload.topic_run_id state.paused_topics))
        (λ paused. reduce_resumed_on state paused event payload)
