-- ===== src/Laws/Valid/Session.antt =====
-- The events that choose a topic leave a valid snapshot.
use x_sync.Prelude.{
  >>=-eq-ok, Bool, arith, inl, inr, is_none, none, ok, refl, true, ◌&&◌, ◌==◌, ◌≡◌,
}
use x_sync.Domain.{
  CandidatesPresented, CommittedDialogueEvent, ConversationPhase, ConversationPhase-eq,
  DialogueState, SessionLifecycle, SessionLifecycle-eq, SessionStarted, TopicClarificationAnswered,
  TopicClarificationRequested, TopicSelectionSubmitted, TriggerKind, topic_clarification_answered,
  topic_clarification_requested,
}
use x_sync.Decide.Guards.{has_status}
use x_sync.Identity.{HasHexDigests, Sha256}
use x_sync.Laws.Valid.Carry.{Carried}
use x_sync.Laws.Valid.Work.{Queued-cases, queued_work_from_event-Queued}
use x_sync.Reduce.Envelope.{advance, require, valid_event_payload_shape}
use x_sync.Reduce.Session.{
  reduce_candidates_presented, reduce_session_started, reduce_topic_clarification_answered,
  reduce_topic_clarification_requested, reduce_topic_selection_submitted,
}
use x_sync.Validate.Shapes.{is_truthy, valid_trigger}
use x_sync.Validate.State.{
  active_work, all_topic_ids, has_open_turn, holds_one_work, is_waiting_status, valid_clarification,
  valid_clarification_place, valid_ended, valid_new, valid_phase, valid_selection,
  valid_session_kind, valid_session_lifecycle, valid_session_work, valid_topic_ids,
}
use x_sync.Validate.Work.{queued_work_from_event}

module _ ⦃h : Sha256⦄ (hex : HasHexDigests h) (state : DialogueState)
    (event : CommittedDialogueEvent) (c : Carried state event.sequence)
    {next_state : DialogueState} where
  pub session_started-Carried :
      (p : SessionStarted)
      → reduce_session_started state event p ≡ ok next_state
      → Carried next_state event.sequence
  unfolding advance valid_session_lifecycle valid_phase valid_selection valid_clarification_place
      valid_topic_ids all_topic_ids valid_new valid_session_work valid_session_kind valid_trigger
      holds_one_work is_waiting_status active_work has_open_turn reduce_session_started
  session_started-Carried p e =
      let (_, g, e') = >>=-eq-ok (require (starts p)) _ e in
      let (work, q, _) =
        >>=-eq-ok (queued_work_from_event state.session_id event p.candidate_trigger 1 none) _ e' in
      let w =
        queued_work_from_event-Queued state.session_id event p.candidate_trigger 1 none hex q
          (omega arith) (omega arith) refl (inl refl) in
      ground arith
    where
      starts : SessionStarted → Bool
      starts p =
          (state.lifecycle == SessionLifecycle.new)
          && (state.phase == ConversationPhase.none_phase)
          && is_none state.session_work
          && valid_trigger p.candidate_trigger TriggerKind.topic_candidates none
              p.candidate_trigger.evidence_digest

  pub candidates_presented-Carried :
      (p : CandidatesPresented)
      → state.selected_candidate ≡ none
      → reduce_candidates_presented state event p ≡ ok next_state
      → Carried next_state event.sequence
  unfolding advance valid_session_lifecycle valid_phase valid_selection valid_clarification_place
      valid_topic_ids all_topic_ids valid_new valid_ended is_truthy has_status
      reduce_candidates_presented
  candidates_presented-Carried p x e = ground arith

  pub topic_selection_submitted-Carried :
      (p : TopicSelectionSubmitted)
      → reduce_topic_selection_submitted state event p ≡ ok next_state
      → Carried next_state event.sequence
  unfolding advance valid_session_lifecycle valid_phase valid_selection valid_clarification_place
      valid_topic_ids all_topic_ids valid_new valid_ended valid_session_work valid_session_kind
      valid_trigger holds_one_work is_waiting_status active_work has_open_turn
      reduce_topic_selection_submitted
  topic_selection_submitted-Carried p e =
      elim (Queued-cases state.session_id event p.next_trigger hex) [
        | inl (code, q) ↦ ground arith
        | inr (work, q, w) ↦ ground arith
      ]

  pub topic_clarification_requested-Carried :
      (p : TopicClarificationRequested)
      → valid_event_payload_shape (topic_clarification_requested p) ≡ true
      → reduce_topic_clarification_requested state event p ≡ ok next_state
      → Carried next_state event.sequence
  unfolding advance valid_session_lifecycle valid_phase valid_selection valid_clarification_place
      valid_topic_ids all_topic_ids valid_new valid_ended valid_event_payload_shape
      valid_clarification reduce_topic_clarification_requested
  topic_clarification_requested-Carried p s e = ground arith

  pub topic_clarification_answered-Carried :
      (p : TopicClarificationAnswered)
      → valid_event_payload_shape (topic_clarification_answered p) ≡ true
      → reduce_topic_clarification_answered state event p ≡ ok next_state
      → Carried next_state event.sequence
  unfolding advance valid_session_lifecycle valid_phase valid_selection valid_clarification_place
      valid_topic_ids all_topic_ids valid_new valid_ended valid_event_payload_shape
      valid_clarification valid_session_work valid_session_kind valid_trigger holds_one_work
      is_waiting_status active_work has_open_turn reduce_topic_clarification_answered
  topic_clarification_answered-Carried p s e =
      elim (Queued-cases state.session_id event p.next_trigger hex) [
        | inl (code, q) ↦ ground arith
        | inr (work, q, w) ↦ ground arith
      ]
