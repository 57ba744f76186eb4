-- ===== src/Decide/Resume.antt =====
-- xsync_v2/state_machine.py: `_resume_topic`.
use x_sync.Prelude.{
  Bool, List, Option, Option-eq, String, String-eq, [], false, if◌then◌else◌, is_some, none, not,
  some, true, ◌!=◌, ◌&&◌, ◌==◌, ◌||◌, ◌∷◌,
}
use x_sync.Domain.{
  ConversationPhase, ConversationPhase-eq, CurrentWorkState, DecisionContext, DialogueEventPayload,
  DialogueState, EvidenceCheck, ResumeTopic, TopicRunState, TriggerBinding, TriggerKind, WorkStatus,
  WorkStatus-eq, topic_resumed,
}
use x_sync.Decide.Guards.{is_degraded, same_evidence}
use x_sync.Decide.Topic.{on_topic}
use x_sync.Decide.Turn.{on_work}
use x_sync.Decision.{Code, Decision, accept, on_trigger, rejected}
use x_sync.Text.{valid_text}
use x_sync.Validate.Shapes.{valid_evidence}
use x_sync.Validate.Work.{matching_trigger}

-- The first paused Run of an id: `next(...)`.
unfoldable pub find_paused : String → List TopicRunState → Option TopicRunState
find_paused topic_run_id [] = none
find_paused topic_run_id (item ∷ items) =
    if item.topic_run_id == topic_run_id then some item else find_paused topic_run_id items

unfoldable pub requires_reground : EvidenceCheck → TopicRunState → Bool
requires_reground evidence topic = not (same_evidence evidence topic) || is_degraded evidence.health

-- The trigger of a resumed work item: a fresh work id, and the saved parent and input.
unfoldable pub resumes : TriggerBinding → TriggerBinding → Bool
resumes saved resumed =
    (resumed.work_id != saved.work_id)
    && (resumed.parent_turn_id == saved.parent_turn_id)
    && (resumed.input_digest == saved.input_digest)

abbrev pub resumed_event :
    String → Bool → Option TriggerBinding → EvidenceCheck → DialogueEventPayload
resumed_event topic_run_id reground trigger evidence = topic_resumed (record {
  topic_run_id = topic_run_id;
  requires_reground = reground;
  resumed_trigger = trigger;
  evidence = evidence;
})

-- The branch `topic.work is not None`.
unfoldable pub resume_work :
    TopicRunState → CurrentWorkState → ResumeTopic → DecisionContext → Decision
resume_work topic work command context =
    if work.status == WorkStatus.dead_letter
    then rejected Code.topic_state_conflict
    else if work.status != WorkStatus.superseded
    then rejected Code.state_invariant_violation
    else on_trigger
        (matching_trigger context.trigger work.trigger.kind (some topic.contract.contract_digest)
          context.evidence.evidence_digest)
        Code.validation_failed
        λ trigger.
          if not (resumes work.trigger trigger)
          then rejected Code.validation_failed
          else accept command.command_id
              (resumed_event command.topic_run_id false (some trigger) context.evidence)

unfoldable pub resume_topic_on : TopicRunState → ResumeTopic → DecisionContext → Decision
resume_topic_on topic command context =
    if not (valid_evidence context.evidence)
    then rejected Code.validation_failed
    else if requires_reground context.evidence topic
    then on_trigger
        (matching_trigger context.trigger TriggerKind.reground (some topic.contract.contract_digest)
          context.evidence.evidence_digest)
        Code.validation_failed
        (λ trigger.
          accept command.command_id
            (resumed_event command.topic_run_id true (some trigger) context.evidence))
    else if is_some topic.current_agent_turn
    then (if is_some context.trigger
        then rejected Code.validation_failed
        else accept command.command_id
            (resumed_event command.topic_run_id false none context.evidence))
    else on_work topic.work (λ work. resume_work topic work command context)

unfoldable pub resume_topic_handler : DialogueState → ResumeTopic → DecisionContext → Decision
resume_topic_handler state command context =
    if state.phase != ConversationPhase.none_phase || is_some state.active_topic
    then rejected Code.topic_state_conflict
    else if not (valid_text command.topic_run_id)
    then rejected Code.validation_failed
    else on_topic (find_paused command.topic_run_id state.paused_topics)
        (λ topic. resume_topic_on topic command context)
