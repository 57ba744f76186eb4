-- ===== src/Decide/Topic.antt =====
-- xsync_v2/state_machine.py: `_start_topic` to `_pause_topic`.
use x_sync.Prelude.{
  Bool, Option, Option-eq, String-eq, false, has, if◌then◌else◌, is_none, is_some, none, not, some,
  true, when, ◌!=◌, ◌&&◌, ◌==◌, ◌||◌,
}
use x_sync.Domain.{
  CommitAgentTurn, ConversationPhase, ConversationPhase-eq, CurrentWorkState, DecisionContext,
  DialogueState, PauseCause, PauseTopic, StartTopic, SubmitLearnerTurn, TopicClarification,
  TopicRunState, TriggerBinding-eq, TriggerKind, WorkStatus, agent_turn_committed,
  learner_turn_submitted, open_question_id, session_unresolved_trigger, topic_paused, topic_started,
}
use x_sync.Decide.Guards.{has_kind, has_status, initial_kind, same_evidence}
use x_sync.Decision.{Code, Decision, accept, on_trigger, rejected}
use x_sync.Rules.{is_publishable}
use x_sync.Text.{valid_text}
use x_sync.Validate.Model.{valid_agent_turn, valid_model_updates}
use x_sync.Validate.Shapes.{valid_contract, valid_evidence}
use x_sync.Validate.Work.{matching_trigger}

unfoldable pub is_legacy_start : DialogueState → StartTopic → Bool
is_legacy_start state command =
    (state.phase == ConversationPhase.choosing_topic)
    && is_none state.session_work
    && is_none state.selected_candidate
    && is_none command.selected_candidate

unfoldable pub is_durable_start : DialogueState → StartTopic → Bool
is_durable_start state command =
    (state.phase == ConversationPhase.waiting_host)
    && has_status WorkStatus.queued state.session_work
    && has_kind TriggerKind.topic_selection state.session_work
    && is_some state.selected_candidate
    && (command.selected_candidate == state.selected_candidate)
    && when true (λ (clarification : TopicClarification). is_some clarification.answer)
        state.topic_clarification

unfoldable pub start_topic_handler : DialogueState → StartTopic → DecisionContext → Decision
start_topic_handler state command context =
    let durable_selection = is_durable_start state command in
    if is_some state.active_topic || not (is_legacy_start state command || durable_selection)
    then rejected Code.topic_state_conflict
    else if not (valid_contract command.contract)
    then rejected Code.validation_failed
    else if not (valid_evidence context.evidence)
    then rejected Code.validation_failed
    else on_trigger
        (matching_trigger context.trigger (initial_kind context.evidence.health)
          (some command.contract.contract_digest) context.evidence.evidence_digest)
        Code.validation_failed
        λ trigger. accept command.command_id (
          topic_started (record {
            contract = command.contract;
            evidence = context.evidence;
            initial_trigger = trigger;
            selected_candidate = command.selected_candidate;
            selection_trigger =
                if durable_selection then session_unresolved_trigger state else none;
          }))

-- `_commit_agent_turn`, behind the test that there is an active Run.
unfoldable pub commit_agent_turn_on : TopicRunState → CommitAgentTurn → DecisionContext → Decision
commit_agent_turn_on topic command context =
    if is_some (open_question_id topic)
    then rejected Code.topic_state_conflict
    else if not (has_status WorkStatus.queued topic.work)
    then rejected Code.topic_state_conflict
    else if not (is_publishable topic.evidence_health)
    then rejected Code.evidence_stale
    else on_trigger context.trigger Code.work_superseded λ trigger.
      if not (when false (λ (work : CurrentWorkState). trigger == work.trigger) topic.work)
        || not (same_evidence context.evidence topic)
      then rejected Code.work_superseded
      else if not
          (valid_agent_turn topic.contract command.result context.evidence topic.learner_turn_ids)
      then rejected Code.validation_failed
      else if not (valid_model_updates topic.learner_model command.result.learner_model_delta)
      then rejected Code.validation_failed
      else accept command.command_id (
          agent_turn_committed
            (record { result = command.result; trigger = trigger; evidence = context.evidence }))

-- A handler that needs an active Run.
abbrev pub on_topic : Option TopicRunState → (TopicRunState → Decision) → Decision
on_topic none rest = rejected Code.topic_state_conflict
on_topic (some topic) rest = rest topic

unfoldable pub commit_agent_turn_handler :
    DialogueState → CommitAgentTurn → DecisionContext → Decision
commit_agent_turn_handler state command context =
    if state.phase != ConversationPhase.waiting_host
    then rejected Code.topic_state_conflict
    else on_topic state.active_topic (λ topic. commit_agent_turn_on topic command context)

unfoldable pub submit_turn_on : TopicRunState → SubmitLearnerTurn → DecisionContext → Decision
submit_turn_on topic command context =
    if open_question_id topic != some command.question_id
    then rejected Code.topic_state_conflict
    else if not (valid_text command.question_id)
        || not (valid_text command.learner_turn_id)
        || not (valid_text command.text)
    then rejected Code.validation_failed
    else if has command.learner_turn_id topic.learner_turn_ids
    then rejected Code.validation_failed
    else on_trigger
        (matching_trigger context.trigger TriggerKind.learner_reply
          (some topic.contract.contract_digest) topic.evidence_digest)
        Code.validation_failed
        λ trigger.
          if trigger.parent_turn_id != some command.learner_turn_id
          then rejected Code.validation_failed
          else accept command.command_id (
              learner_turn_submitted (record {
                question_id = command.question_id;
                learner_turn_id = command.learner_turn_id;
                text = command.text;
                next_trigger = trigger;
              }))

unfoldable pub submit_turn_handler : DialogueState → SubmitLearnerTurn → DecisionContext → Decision
submit_turn_handler state command context =
    if state.phase != ConversationPhase.awaiting_user
    then rejected Code.topic_state_conflict
    else on_topic state.active_topic (λ topic. submit_turn_on topic command context)

unfoldable pub pause_topic_handler : DialogueState → PauseTopic → DecisionContext → Decision
pause_topic_handler state command context = on_topic state.active_topic λ topic.
    accept command.command_id (
      topic_paused (record {
        topic_run_id = topic.topic_run_id;
        cause = PauseCause.user;
        handoff_id = none;
        fence_generation = none;
      }))
