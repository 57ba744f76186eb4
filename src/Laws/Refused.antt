-- ===== src/Laws/Refused.antt =====
-- Events that the last validation of `reduce` always refuses, though their branch does not test why.
use mathlib.Core.Path.{subst}
use x_sync.Prelude.{Error, String, arith, err, false, none, ok, some, sym, true, ◌+◌, ◌≡◌}
use x_sync.Domain.{
  CandidatesPresented, CommittedDialogueEvent, ConversationPhase, DialogueState, TopicClarification,
  WorkDeadLettered, candidates_presented, work_dead_lettered,
}
use x_sync.Identity.{Sha256}
use x_sync.Laws.Frame.{reduce-Reduced}
use x_sync.Reduce.Envelope.{advance, valid_committed_event_envelope}
use x_sync.Reduce.Session.{reduce_candidates_presented}
use x_sync.Reduce.Step.{reduce, transition}
use x_sync.Reduce.Work.{reduce_work_dead_lettered, replace_paused_work, replace_work}
use x_sync.Rules.{conversation_version_delta}
use x_sync.Validate.State.{
  is_valid_state, valid_clarification_place, valid_selection, validate_state,
}

module _ ⦃h : Sha256⦄ where
  dead_letter-moved :
      (state next_state : DialogueState) (event : CommittedDialogueEvent) (p : WorkDeadLettered)
      → transition state event (work_dead_lettered p) ≡ ok next_state
      → (next_state.phase ≡ ConversationPhase.recoverable_error)
        × (next_state.topic_clarification ≡ state.topic_clarification)
  unfolding transition reduce_work_dead_lettered replace_work replace_paused_work advance
  dead_letter-moved state next_state event p e = ground arith

  recoverable-clarified :
      (state : DialogueState) (clarification : TopicClarification)
      → state.phase ≡ ConversationPhase.recoverable_error
      → state.topic_clarification ≡ some clarification
      → is_valid_state state ≡ false
  unfolding is_valid_state valid_clarification_place
  recoverable-clarified state clarification r k = ground arith

  -- While a topic clarification stands in the snapshot, a dead letter that passes its envelope and
  -- its branch is never reduced: the branch keeps the clarification and goes to the recoverable
  -- error, which is no valid snapshot, so the last validation of `reduce` refuses it.
  pub reduce-dead_letter_clarified :
      (state moved : DialogueState) (event : CommittedDialogueEvent) (p : WorkDeadLettered)
      (clarification : TopicClarification)
      → event.payload ≡ work_dead_lettered p
      → state.topic_clarification ≡ some clarification
      → is_valid_state state ≡ true
      → valid_committed_event_envelope event ≡ true
      → event.sequence ≡ state.sequence + 1
      → event.from_version ≡ state.conversation_version
      → event.to_version ≡ event.from_version + conversation_version_delta event.payload
      → transition state event (work_dead_lettered p) ≡ ok moved
      → (moved.phase ≡ ConversationPhase.recoverable_error)
        × (moved.topic_clarification ≡ some clarification)
        × (is_valid_state moved ≡ false)
        × (reduce state event ≡ err Error.state_invariant_violation)
  unfolding reduce validate_state
  reduce-dead_letter_clarified state moved event p clarification q k v e s f u t =
      let m = dead_letter-moved state moved event p t in
      let refused = recoverable-clarified moved clarification m.0 (ground arith) in
      let taken : transition state event event.payload ≡ ok moved =
        subst (λ x. transition state event x ≡ ok moved) (sym q) t in
      (m.0, ground arith, refused, ground arith)

  candidates-moved :
      (state next_state : DialogueState) (event : CommittedDialogueEvent) (p : CandidatesPresented)
      → transition state event (candidates_presented p) ≡ ok next_state
      → (next_state.phase ≡ ConversationPhase.choosing_topic)
        × (next_state.selected_candidate ≡ state.selected_candidate)
        × (next_state.session_work ≡ none)
  unfolding transition reduce_candidates_presented advance
  candidates-moved state next_state event p e = ground arith

  choosing-selected :
      (state : DialogueState)
      → is_valid_state state ≡ true
      → state.phase ≡ ConversationPhase.choosing_topic
      → state.session_work ≡ none
      → state.selected_candidate ≡ none
  unfolding is_valid_state valid_selection
  choosing-selected state v c s = ground arith

  -- While a candidate is selected, no presentation of candidates is ever reduced.
  pub reduce-candidates_selected :
      (state next_state : DialogueState) (event : CommittedDialogueEvent) (p : CandidatesPresented)
      (candidate : String)
      → event.payload ≡ candidates_presented p
      → state.selected_candidate ≡ some candidate
      → ¬ (reduce state event ≡ ok next_state)
  reduce-candidates_selected state next_state event p candidate q k e =
      let r = reduce-Reduced state event e in
      let m =
        candidates-moved state next_state event p
          (subst (λ x. transition state event x ≡ ok next_state) q r.moved) in
      let n = choosing-selected next_state r.next_valid m.0 m.2 in ground arith
