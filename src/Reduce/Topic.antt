-- ===== src/Reduce/Topic.antt =====
-- xsync_v2/state_machine.py: the branches of `reduce` for `TopicStarted` and `AgentTurnCommitted`.
use x_sync.Prelude.{
  Bool, Error, Option, Option-eq, Result, String-eq, [], err, false, is_none, map, none, ok, some,
  when, ◌&&◌, ◌==◌, ◌>>=◌, ◌>>◌, ◌||◌,
}
use x_sync.Domain.{
  AgentTurnCommitted, AgentTurnResult, CommittedDialogueEvent, ConversationPhase,
  ConversationPhase-eq, CurrentWorkState, DialogueState, EvidenceCheck, GateAssessment,
  GateRequirement, GateStatus, TopicContract, TopicLifecycle, TopicRunState, TopicStarted,
  TriggerBinding-eq, TriggerKind, WorkStatus, open_question_id, session_unresolved_trigger,
}
use x_sync.Decide.Guards.{has_kind, has_status, initial_kind, same_evidence}
use x_sync.Identity.{Sha256}
use x_sync.Reduce.Envelope.{advance, require}
use x_sync.Rules.{is_publishable}
use x_sync.Validate.Model.{apply_model_updates, valid_agent_turn, valid_model_updates}
use x_sync.Validate.Shapes.{valid_contract, valid_evidence, valid_trigger}
use x_sync.Validate.Work.{queued_work_from_event}

unfoldable pub is_legacy_started : DialogueState → TopicStarted → Bool
is_legacy_started state payload =
    (state.phase == ConversationPhase.choosing_topic)
    && is_none state.session_work
    && is_none state.selected_candidate
    && is_none payload.selected_candidate
    && is_none payload.selection_trigger

unfoldable pub is_durable_started : DialogueState → TopicStarted → Bool
is_durable_started state payload =
    (state.phase == ConversationPhase.waiting_host)
    && has_status WorkStatus.queued state.session_work
    && has_kind TriggerKind.topic_selection state.session_work
    && (payload.selected_candidate == state.selected_candidate)
    && (payload.selection_trigger == session_unresolved_trigger state)

-- `GateAssessment(requirement.gate_id)`.
unfoldable pub unexplored : GateRequirement → GateAssessment
unexplored requirement = record {
  gate_id = requirement.gate_id;
  status = GateStatus.unexplored;
  source_turn_ids = [];
  evidence_refs = [];
}

unfoldable pub new_topic : TopicContract → EvidenceCheck → CurrentWorkState → TopicRunState
new_topic contract evidence work = record {
  topic_run_id = contract.topic_run_id;
  contract = contract;
  lifecycle = TopicLifecycle.active;
  evidence_health = evidence.health;
  evidence_digest = evidence.evidence_digest;
  exact_recheck_fingerprint = evidence.exact_recheck_fingerprint;
  gates = map unexplored contract.gates;
  learner_model = [];
  current_agent_turn = none;
  work = some work;
  learner_turn_ids = [];
  last_learner_turn_id = none;
  last_learner_text = none;
  current_lens = none;
  summary = none;
}

module _ ⦃h : Sha256⦄ where
  unfoldable pub reduce_topic_started :
      DialogueState → CommittedDialogueEvent → TopicStarted → Result DialogueState
  reduce_topic_started state event payload = do
    require (
        is_none state.active_topic
        && (is_legacy_started state payload || is_durable_started state payload))
    require (valid_contract payload.contract && valid_evidence payload.evidence)
    require (
        valid_trigger payload.initial_trigger (initial_kind payload.evidence.health)
          (some payload.contract.contract_digest) payload.evidence.evidence_digest)
    work ← queued_work_from_event state.session_id event payload.initial_trigger 1 none
    let next_state = advance state event
    ok (record next_state {
      active_topic = some (new_topic payload.contract payload.evidence work);
      candidates = [];
      selected_candidate = none;
      topic_clarification = none;
      session_work = none;
      phase = ConversationPhase.waiting_host;
    })

-- A branch that needs an active Run.
abbrev pub need_topic :
    Option TopicRunState → (TopicRunState → Result DialogueState) → Result DialogueState
need_topic none rest = err Error.illegal_event_transition
need_topic (some topic) rest = rest topic

-- The Run after an agent turn.
unfoldable pub with_turn : TopicRunState → AgentTurnResult → TopicRunState
with_turn topic result = record topic {
  learner_model = apply_model_updates topic.learner_model result.learner_model_delta;
  gates = result.gate_assessments;
  current_agent_turn = some result;
  work = none;
}

unfoldable pub reduce_agent_turn_on :
    DialogueState
    → TopicRunState
    → CommittedDialogueEvent
    → AgentTurnCommitted
    → Result DialogueState
reduce_agent_turn_on state topic event payload = do
  require (
      (state.phase == ConversationPhase.waiting_host)
      && is_none (open_question_id topic)
      && has_status WorkStatus.queued topic.work
      && is_publishable topic.evidence_health
      && valid_evidence payload.evidence
      && when false (λ (work : CurrentWorkState). payload.trigger == work.trigger) topic.work
      && same_evidence payload.evidence topic
      && valid_agent_turn topic.contract payload.result payload.evidence topic.learner_turn_ids)
  require (valid_model_updates topic.learner_model payload.result.learner_model_delta)
  let next_state = advance state event
  ok (record next_state {
    active_topic = some (with_turn topic payload.result);
    phase = ConversationPhase.awaiting_user;
  })

unfoldable pub reduce_agent_turn_committed :
    DialogueState → CommittedDialogueEvent → AgentTurnCommitted → Result DialogueState
reduce_agent_turn_committed state event payload =
    need_topic state.active_topic (λ topic. reduce_agent_turn_on state topic event payload)
