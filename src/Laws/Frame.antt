-- ===== src/Laws/Frame.antt =====
-- What every branch of `reduce` leaves alone, and the two counters that it moves.
use x_sync.Prelude.{>>=-eq-ok, List, [], arith, length, ok, true, ℕ, ◌+◌, ◌∷◌, ◌≡◌}
use x_sync.Domain.{CommittedDialogueEvent, DialogueEventPayload, DialogueState, session_started}
use x_sync.Identity.{Sha256}
use x_sync.Reduce.Envelope.{valid_committed_event_envelope}
use x_sync.Reduce.Step.{reduce, reduce_all, transition}
use x_sync.Rules.{conversation_version_delta}
use x_sync.Validate.State.{is_valid_state, validate_state}

-- Identity and counters after an event.
pub record Frame (state : DialogueState) (event : CommittedDialogueEvent)
    (next_state : DialogueState) : Type 0 where
  pub session_id : next_state.session_id ≡ state.session_id
  pub generation : next_state.registry_generation ≡ state.registry_generation
  pub sequence : next_state.sequence ≡ event.sequence
  pub version : next_state.conversation_version ≡ event.to_version

-- What `reduce` has checked when it succeeds.
pub record Reduced ⦃h : Sha256⦄ (state : DialogueState) (event : CommittedDialogueEvent)
    (next_state : DialogueState) : Type 0 where
  pub valid : is_valid_state state ≡ true
  pub envelope : valid_committed_event_envelope event ≡ true
  pub sequence : event.sequence ≡ state.sequence + 1
  pub from_version : event.from_version ≡ state.conversation_version
  pub to_version : event.to_version ≡ event.from_version + conversation_version_delta event.payload
  pub moved : transition state event event.payload ≡ ok next_state
  pub next_valid : is_valid_state next_state ≡ true

module _ ⦃h : Sha256⦄ where
  pub transition-Frame :
      (state : DialogueState) (event : CommittedDialogueEvent) (p : DialogueEventPayload)
      {next_state : DialogueState}
      → transition state event p ≡ ok next_state
      → Frame state event next_state
  unfolding transition
  transition-Frame state event (session_started p) e = ground arith
  transition-Frame state event p e = ground arith

  pub reduce-Reduced :
      (state : DialogueState) (event : CommittedDialogueEvent) {next_state : DialogueState}
      → reduce state event ≡ ok next_state
      → Reduced state event next_state
  unfolding reduce validate_state
  reduce-Reduced state event e = ground arith

  pub Reduced-reduce :
      (state : DialogueState) (event : CommittedDialogueEvent) {next_state : DialogueState}
      → Reduced state event next_state
      → reduce state event ≡ ok next_state
  unfolding reduce validate_state
  Reduced-reduce state event r = ground arith

  -- An event that `reduce` accepts moves the sequence by one and the version by the delta of its
  -- payload, and keeps the id and the registry generation of the Session.
  pub reduce_counters :
      (state : DialogueState) (event : CommittedDialogueEvent) {next_state : DialogueState}
      → reduce state event ≡ ok next_state
      → (next_state.sequence ≡ state.sequence + 1)
        × (next_state.conversation_version
            ≡ state.conversation_version + conversation_version_delta event.payload)
        × (next_state.session_id ≡ state.session_id)
        × (next_state.registry_generation ≡ state.registry_generation)
  reduce_counters state event e =
      let r = reduce-Reduced state event e in
      ground (arith, transition-Frame state event event.payload r.moved)

-- The sum of the version effects of some events.
pub deltas : List CommittedDialogueEvent → ℕ
deltas [] = 0
deltas (event ∷ events) = conversation_version_delta event.payload + deltas events

module _ ⦃h : Sha256⦄ where
  -- A log of events that folds into a state moves its sequence by the number of events and its
  -- version by the sum of their deltas, whatever the events are.
  pub reduce_all_counters :
      (state : DialogueState) (events : List CommittedDialogueEvent) {next_state : DialogueState}
      → reduce_all state events ≡ ok next_state
      → (next_state.sequence ≡ state.sequence + length events)
        × (next_state.conversation_version ≡ state.conversation_version + deltas events)
        × (next_state.session_id ≡ state.session_id)
        × (next_state.registry_generation ≡ state.registry_generation)
  unfolding reduce_all deltas
  reduce_all_counters state [] e = ground arith
  reduce_all_counters state (event ∷ events) {next_state} e =
      let (mid, first, rest) = >>=-eq-ok (reduce state event) (λ s. reduce_all s events) e in
      ground (arith, reduce_counters state event first, reduce_all_counters mid events rest)
