-- ===== src/Decide/Table.antt =====
-- xsync_v2/state_machine.py: `TRANSITION_TABLE`, `_valid_decision_context` and `decide`.
use x_sync.Prelude.{Bool, if◌then◌else◌, leb, not, true, when, ℕ-eq, ◌!=◌, ◌&&◌, ◌==◌, ◌||◌}
use x_sync.Domain.{
  DecisionContext, DialogueCommand, DialogueState, SessionLifecycle, SessionLifecycle-eq,
  answer_topic_clarification, command_id, commit_agent_turn, complete_export, complete_topic,
  explore_topics, pause_topic, present_candidates, recover_work, report_work_failure,
  request_export, request_help, request_topic_clarification, resume_topic, select_topic, set_lens,
  start_session, start_topic, submit_custom_topic, submit_learner_turn, switch_topic,
}
use x_sync.Decide.Export.{complete_export_handler, complete_export_on, request_export_handler}
use x_sync.Decide.Resume.{resume_topic_handler, resume_topic_on, resume_work}
use x_sync.Decide.Session.{
  answer_topic_clarification_handler, present_candidates_handler,
  request_topic_clarification_handler, select_topic_handler, start_session_handler,
  submit_custom_topic_handler, submit_selection,
}
use x_sync.Decide.Topic.{
  commit_agent_turn_handler, commit_agent_turn_on, pause_topic_handler, start_topic_handler,
  submit_turn_handler, submit_turn_on,
}
use x_sync.Decide.Turn.{
  complete_topic_handler, complete_topic_on, explore_topics_handler, request_help_handler,
  request_help_on, set_lens_handler, set_lens_on, switch_topic_handler,
}
use x_sync.Decide.Work.{
  recover_work_handler, recover_work_on, report_work_failure_handler, report_work_failure_on,
}
use x_sync.Decision.{Code, Decision, accept, rejected}
use x_sync.Identity.{Sha256, is_canonical_trigger_binding}
use x_sync.Text.{is_protocol_id}
use x_sync.Validate.Shapes.{valid_evidence}
use x_sync.Validate.State.{is_valid_state}

-- `TRANSITION_TABLE[type(command)](state, command, context)`. Every handler is called with a
-- command of its own class, so the first test of each handler holds.
unfoldable pub handler : DialogueState → DialogueCommand → DecisionContext → Decision
unfolding accept start_session_handler present_candidates_handler select_topic_handler
    submit_custom_topic_handler submit_selection request_topic_clarification_handler
    answer_topic_clarification_handler start_topic_handler commit_agent_turn_handler
    commit_agent_turn_on submit_turn_handler submit_turn_on pause_topic_handler set_lens_handler
    set_lens_on request_help_handler request_help_on complete_topic_handler complete_topic_on
    switch_topic_handler explore_topics_handler resume_topic_handler resume_topic_on resume_work
    report_work_failure_handler report_work_failure_on recover_work_handler recover_work_on
    request_export_handler complete_export_handler complete_export_on
handler state (start_session c) context = start_session_handler state c context
handler state (present_candidates c) context = present_candidates_handler state c context
handler state (select_topic c) context = select_topic_handler state c context
handler state (submit_custom_topic c) context = submit_custom_topic_handler state c context
handler state (request_topic_clarification c) context =
    request_topic_clarification_handler state c context
handler state (answer_topic_clarification c) context =
    answer_topic_clarification_handler state c context
handler state (set_lens c) context = set_lens_handler state c context
handler state (request_help c) context = request_help_handler state c context
handler state (complete_topic c) context = complete_topic_handler state c context
handler state (start_topic c) context = start_topic_handler state c context
handler state (commit_agent_turn c) context = commit_agent_turn_handler state c context
handler state (submit_learner_turn c) context = submit_turn_handler state c context
handler state (pause_topic c) context = pause_topic_handler state c context
handler state (switch_topic c) context = switch_topic_handler state c context
handler state (explore_topics c) context = explore_topics_handler state c context
handler state (resume_topic c) context = resume_topic_handler state c context
handler state (report_work_failure c) context = report_work_failure_handler state c context
handler state (recover_work c) context = recover_work_handler state c context
handler state (request_export c) context = request_export_handler state c context
handler state (complete_export c) context = complete_export_handler state c context

unfoldable pub valid_decision_context : DecisionContext → Bool
valid_decision_context context =
    leb 1 context.registry_generation
    && valid_evidence context.evidence
    && when true is_canonical_trigger_binding context.trigger

unfoldable pub lifecycle_allowed : DialogueCommand → SessionLifecycle → Bool
lifecycle_allowed (start_session c) lifecycle = lifecycle == SessionLifecycle.new
lifecycle_allowed (request_export c) lifecycle =
    (lifecycle == SessionLifecycle.opened) || (lifecycle == SessionLifecycle.ended)
lifecycle_allowed (complete_export c) lifecycle =
    (lifecycle == SessionLifecycle.opened) || (lifecycle == SessionLifecycle.ended)
lifecycle_allowed _ lifecycle = lifecycle == SessionLifecycle.opened

module _ ⦃h : Sha256⦄ where
  unfoldable pub decide : DialogueState → DialogueCommand → DecisionContext → Decision
  decide state command context =
      if not (is_valid_state state)
      then rejected Code.state_invariant_violation
      else if not (valid_decision_context context)
      then rejected Code.validation_failed
      else if context.registry_generation != state.registry_generation
      then rejected Code.session_deactivated
      else if not (is_protocol_id (command_id command))
      then rejected Code.validation_failed
      else if not (lifecycle_allowed command state.lifecycle)
      then rejected Code.topic_state_conflict
      else handler state command context
