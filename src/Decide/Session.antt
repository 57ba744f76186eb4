-- ===== src/Decide/Session.antt =====
-- xsync_v2/state_machine.py: `_start_session` to `_answer_topic_clarification`.
use x_sync.Prelude.{
  Bool, Option-eq, String, String-eq, false, has, if◌then◌else◌, is_none, is_some, none, not, some,
  when, ◌!=◌, ◌&&◌, ◌==◌, ◌||◌,
}
use x_sync.Domain.{
  AnswerTopicClarification, ConversationPhase, ConversationPhase-eq, DecisionContext, DialogueState,
  PresentCandidates, RequestTopicClarification, SelectTopic, SessionLifecycle, SessionLifecycle-eq,
  StartSession, SubmitCustomTopic, TopicClarification, TriggerBinding-eq, TriggerKind, WorkStatus,
  candidates_presented, command_id, session_started, session_unresolved_trigger,
  topic_clarification_answered, topic_clarification_requested, topic_selection_submitted,
}
use x_sync.Decide.Guards.{has_kind, has_status}
use x_sync.Decision.{Code, Decision, accept, on_trigger, rejected}
use x_sync.Text.{valid_text}
use x_sync.Validate.Shapes.{valid_candidates}
use x_sync.Validate.Work.{matching_trigger}

unfoldable pub start_session_handler : DialogueState → StartSession → DecisionContext → Decision
start_session_handler state command context =
    if state.lifecycle != SessionLifecycle.new || state.phase != ConversationPhase.none_phase
    then rejected Code.topic_state_conflict
    else on_trigger
        (matching_trigger context.trigger TriggerKind.topic_candidates none
          context.evidence.evidence_digest)
        Code.validation_failed
        (λ trigger.
          accept command.command_id (session_started (record { candidate_trigger = trigger })))

unfoldable pub present_candidates_handler :
    DialogueState → PresentCandidates → DecisionContext → Decision
present_candidates_handler state command context =
    if state.phase != ConversationPhase.waiting_host
      || is_some state.active_topic
      || not (has_status WorkStatus.queued state.session_work)
    then rejected Code.topic_state_conflict
    else if not (valid_candidates command.candidates)
    then rejected Code.validation_failed
    else on_trigger context.trigger Code.work_superseded λ trigger.
      if some trigger != session_unresolved_trigger state
      then rejected Code.work_superseded
      else accept command.command_id
          (candidates_presented (record { candidates = command.candidates; trigger = trigger }))

-- The state in which a learner may choose a topic.
unfoldable pub is_choosing : DialogueState → Bool
is_choosing state =
    (state.phase == ConversationPhase.choosing_topic)
    && is_none state.active_topic
    && is_none state.session_work
    && is_none state.selected_candidate

-- The common end of `_select_topic` and `_submit_custom_topic`.
unfoldable pub submit_selection : String → String → DecisionContext → Decision
submit_selection command_id candidate context =
    on_trigger
      (matching_trigger context.trigger TriggerKind.topic_selection none
        context.evidence.evidence_digest)
      Code.validation_failed
      λ trigger.
        accept command_id
          (topic_selection_submitted (record { candidate = candidate; next_trigger = trigger }))

unfoldable pub select_topic_handler : DialogueState → SelectTopic → DecisionContext → Decision
select_topic_handler state command context =
    if not (is_choosing state)
    then rejected Code.topic_state_conflict
    else if not (valid_text command.candidate) || not (has command.candidate state.candidates)
    then rejected Code.validation_failed
    else submit_selection command.command_id command.candidate context

unfoldable pub submit_custom_topic_handler :
    DialogueState → SubmitCustomTopic → DecisionContext → Decision
submit_custom_topic_handler state command context =
    if not (is_choosing state)
    then rejected Code.topic_state_conflict
    else if not (valid_text command.topic)
    then rejected Code.validation_failed
    else submit_selection command.command_id command.topic context

unfoldable pub request_topic_clarification_handler :
    DialogueState → RequestTopicClarification → DecisionContext → Decision
request_topic_clarification_handler state command context =
    if state.phase != ConversationPhase.waiting_host
      || is_some state.active_topic
      || is_none state.selected_candidate
      || not (has_status WorkStatus.queued state.session_work)
      || not (has_kind TriggerKind.topic_selection state.session_work)
    then rejected Code.topic_state_conflict
    else if not (valid_text command.question_id) || not (valid_text command.question)
    then rejected Code.validation_failed
    else on_trigger context.trigger Code.work_superseded λ trigger.
      if some trigger != session_unresolved_trigger state
      then rejected Code.work_superseded
      else accept command.command_id (
          topic_clarification_requested (record {
            question_id = command.question_id;
            question = command.question;
            selection_trigger = trigger;
          }))

-- `clarification` is open under this question id.
unfoldable pub is_open_clarification : String → TopicClarification → Bool
is_open_clarification question_id clarification =
    is_none clarification.answer && (clarification.question_id == question_id)

unfoldable pub answer_topic_clarification_handler :
    DialogueState → AnswerTopicClarification → DecisionContext → Decision
answer_topic_clarification_handler state command context =
    if state.phase != ConversationPhase.clarifying_topic
      || is_some state.active_topic
      || is_none state.selected_candidate
      || is_some state.session_work
      || not (when false (is_open_clarification command.question_id) state.topic_clarification)
    then rejected Code.topic_state_conflict
    else if not (valid_text command.answer)
    then rejected Code.validation_failed
    else on_trigger
        (matching_trigger context.trigger TriggerKind.topic_selection none
          context.evidence.evidence_digest)
        Code.validation_failed
        λ trigger.
          if trigger.parent_turn_id != some command.question_id
          then rejected Code.validation_failed
          else accept command.command_id (
              topic_clarification_answered (record {
                question_id = command.question_id;
                answer = command.answer;
                next_trigger = trigger;
              }))
