-- ===== src/Reduce/Session.antt =====
-- xsync_v2/state_machine.py: the branches of `reduce` from `SessionStarted` to
-- `TopicClarificationAnswered`.
use mathlib.Core.Option
use x_sync.Prelude.{
  Option-eq, Result, String-eq, [], false, is_none, is_some, none, ok, some, when, ◌&&◌, ◌==◌,
  ◌>>=◌, ◌>>◌,
}
use x_sync.Domain.{
  CandidatesPresented, CommittedDialogueEvent, ConversationPhase, ConversationPhase-eq,
  DialogueState, SessionLifecycle, SessionLifecycle-eq, SessionStarted, TopicClarification,
  TopicClarificationAnswered, TopicClarificationRequested, TopicSelectionSubmitted,
  TriggerBinding-eq, TriggerKind, WorkStatus, session_unresolved_trigger,
}
use x_sync.Decide.Guards.{has_kind, has_status}
use x_sync.Decide.Session.{is_open_clarification}
use x_sync.Identity.{Sha256}
use x_sync.Reduce.Envelope.{advance, require}
use x_sync.Text.{valid_text}
use x_sync.Validate.Shapes.{valid_candidates, valid_trigger}
use x_sync.Validate.Work.{queued_work_from_event}

module _ ⦃h : Sha256⦄ where
  unfoldable pub reduce_session_started :
      DialogueState → CommittedDialogueEvent → SessionStarted → Result DialogueState
  reduce_session_started state event payload = do
    require (
        (state.lifecycle == SessionLifecycle.new)
        && (state.phase == ConversationPhase.none_phase)
        && is_none state.session_work
        && valid_trigger payload.candidate_trigger TriggerKind.topic_candidates none
            payload.candidate_trigger.evidence_digest)
    work ← queued_work_from_event state.session_id event payload.candidate_trigger 1 none
    let next_state = advance state event
    ok (record next_state {
      lifecycle = SessionLifecycle.opened;
      phase = ConversationPhase.waiting_host;
      session_work = some work;
    })

unfoldable pub reduce_candidates_presented :
    DialogueState → CommittedDialogueEvent → CandidatesPresented → Result DialogueState
reduce_candidates_presented state event payload = do
  require (
      (state.phase == ConversationPhase.waiting_host)
      && is_none state.active_topic
      && has_status WorkStatus.queued state.session_work
      && valid_candidates payload.candidates
      && (some payload.trigger == session_unresolved_trigger state))
  let next_state = advance state event
  ok (record next_state {
    candidates = payload.candidates;
    phase = ConversationPhase.choosing_topic;
    session_work = none;
  })

module _ ⦃h : Sha256⦄ where
  unfoldable pub reduce_topic_selection_submitted :
      DialogueState → CommittedDialogueEvent → TopicSelectionSubmitted → Result DialogueState
  reduce_topic_selection_submitted state event payload = do
    require (
        (state.phase == ConversationPhase.choosing_topic)
        && is_none state.active_topic
        && is_none state.session_work
        && is_none state.selected_candidate
        && valid_text payload.candidate
        && valid_trigger payload.next_trigger TriggerKind.topic_selection none
            payload.next_trigger.evidence_digest)
    work ← queued_work_from_event state.session_id event payload.next_trigger 1 none
    let next_state = advance state event
    ok (record next_state {
      candidates = [];
      selected_candidate = some payload.candidate;
      phase = ConversationPhase.waiting_host;
      session_work = some work;
      topic_clarification = none;
    })

unfoldable pub reduce_topic_clarification_requested :
    DialogueState → CommittedDialogueEvent → TopicClarificationRequested → Result DialogueState
reduce_topic_clarification_requested state event payload = do
  require (
      (state.phase == ConversationPhase.waiting_host)
      && is_none state.active_topic
      && is_some state.selected_candidate
      && has_status WorkStatus.queued state.session_work
      && has_kind TriggerKind.topic_selection state.session_work
      && (some payload.selection_trigger == session_unresolved_trigger state))
  let next_state = advance state event
  ok (record next_state {
    phase = ConversationPhase.clarifying_topic;
    session_work = none;
    topic_clarification =
        some (record {
          question_id = payload.question_id;
          question = payload.question;
          answer = none;
        });
  })

module _ ⦃h : Sha256⦄ where
  unfoldable pub reduce_topic_clarification_answered :
      DialogueState → CommittedDialogueEvent → TopicClarificationAnswered → Result DialogueState
  reduce_topic_clarification_answered state event payload = do
    require (
        (state.phase == ConversationPhase.clarifying_topic)
        && is_none state.active_topic
        && is_some state.selected_candidate
        && is_none state.session_work
        && when false (is_open_clarification payload.question_id) state.topic_clarification
        && valid_trigger payload.next_trigger TriggerKind.topic_selection none
            payload.next_trigger.evidence_digest
        && (payload.next_trigger.parent_turn_id == some payload.question_id))
    work ← queued_work_from_event state.session_id event payload.next_trigger 1 none
    let next_state = advance state event
    ok (record next_state {
      phase = ConversationPhase.waiting_host;
      session_work = some work;
      topic_clarification =
          Option.map
            (λ (clarification : TopicClarification). record clarification {
              answer = some payload.answer;
            })
            state.topic_clarification;
    })
