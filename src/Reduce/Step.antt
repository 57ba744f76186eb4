-- ===== src/Reduce/Step.antt =====
-- xsync_v2/state_machine.py: `reduce`, and the loop of xsync_v2/event_store.py that folds it over the
-- events of a transaction.
use x_sync.Prelude.{Error, List, Result, [], guard, ok, ℕ-eq, ◌+◌, ◌==◌, ◌>>=◌, ◌>>◌, ◌∷◌}
use x_sync.Domain.{
  CommittedDialogueEvent, DialogueEventPayload, DialogueState, agent_turn_committed,
  candidates_presented, export_completed, export_requested, help_requested, learner_turn_submitted,
  lens_changed, session_deactivation_prepared, session_started, topic_clarification_answered,
  topic_clarification_requested, topic_completed, topic_exploration_requested, topic_paused,
  topic_resumed, topic_selection_submitted, topic_started, topic_switch_requested,
  work_dead_lettered, work_failed, work_recovery_requested, work_requeued,
}
use x_sync.Identity.{Sha256}
use x_sync.Reduce.Envelope.{advance, valid_committed_event_envelope}
use x_sync.Reduce.Export.{reduce_export_completed, reduce_export_requested}
use x_sync.Reduce.Pause.{
  reduce_completed_on, reduce_paused_on, reduce_session_deactivation_prepared, reduce_switch_on,
  reduce_topic_completed, reduce_topic_exploration_requested, reduce_topic_paused,
  reduce_topic_switch_requested,
}
use x_sync.Reduce.Recover.{
  recover_active, recover_paused, recover_session, reduce_recovery, reduce_recovery_on,
  reduce_work_recovery_requested,
}
use x_sync.Reduce.Resume.{
  reduce_kept, reduce_reground, reduce_resumed_on, reduce_resumed_work, reduce_topic_resumed,
  resumed_state,
}
use x_sync.Reduce.Session.{
  reduce_candidates_presented, reduce_session_started, reduce_topic_clarification_answered,
  reduce_topic_clarification_requested, reduce_topic_selection_submitted,
}
use x_sync.Reduce.Topic.{reduce_agent_turn_committed, reduce_agent_turn_on, reduce_topic_started}
use x_sync.Reduce.Turn.{
  reduce_help_on, reduce_help_requested, reduce_learner_turn_on, reduce_learner_turn_submitted,
  reduce_lens_changed, reduce_lens_on,
}
use x_sync.Reduce.Work.{
  reduce_work_dead_lettered, reduce_work_failed, reduce_work_requeued, replace_paused_work,
  replace_work,
}
use x_sync.Rules.{conversation_version_delta}
use x_sync.Validate.State.{validate_state}

module _ ⦃h : Sha256⦄ where
  -- The branch of an event, before the last validation.
  unfoldable pub transition :
      DialogueState → CommittedDialogueEvent → DialogueEventPayload → Result DialogueState
  unfolding advance reduce_session_started reduce_candidates_presented
      reduce_topic_selection_submitted reduce_topic_clarification_requested
      reduce_topic_clarification_answered reduce_topic_started reduce_agent_turn_committed
      reduce_agent_turn_on reduce_learner_turn_submitted reduce_learner_turn_on reduce_lens_changed
      reduce_lens_on reduce_help_requested reduce_help_on reduce_topic_completed reduce_completed_on
      reduce_topic_paused reduce_paused_on reduce_topic_switch_requested reduce_switch_on
      reduce_topic_exploration_requested reduce_session_deactivation_prepared reduce_topic_resumed
      reduce_resumed_on reduce_reground reduce_kept reduce_resumed_work resumed_state
      reduce_work_failed reduce_work_requeued reduce_work_dead_lettered replace_work
      replace_paused_work reduce_work_recovery_requested reduce_recovery reduce_recovery_on
      recover_session recover_paused recover_active reduce_export_requested reduce_export_completed
  transition state event (session_started p) = reduce_session_started state event p
  transition state event (candidates_presented p) = reduce_candidates_presented state event p
  transition state event (topic_selection_submitted p) =
      reduce_topic_selection_submitted state event p
  transition state event (topic_clarification_requested p) =
      reduce_topic_clarification_requested state event p
  transition state event (topic_clarification_answered p) =
      reduce_topic_clarification_answered state event p
  transition state event (lens_changed p) = reduce_lens_changed state event p
  transition state event (help_requested p) = reduce_help_requested state event p
  transition state event (topic_completed p) = reduce_topic_completed state event p
  transition state event (topic_started p) = reduce_topic_started state event p
  transition state event (agent_turn_committed p) = reduce_agent_turn_committed state event p
  transition state event (learner_turn_submitted p) = reduce_learner_turn_submitted state event p
  transition state event (topic_paused p) = reduce_topic_paused state event p
  transition state event (topic_switch_requested p) = reduce_topic_switch_requested state event p
  transition state event (topic_exploration_requested p) =
      reduce_topic_exploration_requested state event p
  transition state event (session_deactivation_prepared p) =
      reduce_session_deactivation_prepared state event p
  transition state event (topic_resumed p) = reduce_topic_resumed state event p
  transition state event (work_failed p) = reduce_work_failed state event p
  transition state event (work_requeued p) = reduce_work_requeued state event p
  transition state event (work_dead_lettered p) = reduce_work_dead_lettered state event p
  transition state event (work_recovery_requested p) = reduce_work_recovery_requested state event p
  transition state event (export_requested p) = reduce_export_requested state event p
  transition state event (export_completed p) = reduce_export_completed state event p

  unfoldable pub reduce : DialogueState → CommittedDialogueEvent → Result DialogueState
  reduce state event = do
    validate_state state
    guard (valid_committed_event_envelope event) Error.invalid_event_envelope
    guard (event.sequence == state.sequence + 1) Error.event_sequence_gap
    guard (event.from_version == state.conversation_version) Error.event_version_conflict
    guard (event.to_version == event.from_version + conversation_version_delta event.payload)
        Error.event_version_conflict
    next_state ← transition state event event.payload
    validate_state next_state
    ok next_state

  -- `for event in events: state = reduce(state, event)`.
  unfoldable pub reduce_all : DialogueState → List CommittedDialogueEvent → Result DialogueState
  reduce_all state [] = ok state
  reduce_all state (event ∷ events) =
      reduce state event >>= λ next_state. reduce_all next_state events
