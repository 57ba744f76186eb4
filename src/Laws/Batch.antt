-- ===== src/Laws/Batch.antt =====
-- The numbered events of a decision against the test of the event store on a transaction.
use x_sync.Prelude.{List, Option, String, [], any, arith, none, refl, some, true, ℕ, ◌+◌, ◌∷◌, ◌≡◌}
use x_sync.Domain.{
  CommittedDialogueEvent, DecisionContext, DialogueCommand, DialogueState, PendingDialogueEvent,
  command_id, start_session,
}
use x_sync.Decide.Table.{decide, handler, lifecycle_allowed, valid_decision_context}
use x_sync.Decide.Work.{dead_lettered_event, failed_event, requeued_event}
use x_sync.Decision.{accepted}
use x_sync.Identity.{Sha256}
use x_sync.Rules.{conversation_version_delta}
use x_sync.Session.{
  batch_error, chain_error, committed_event, committed_events, failure_error, is_failure_payload,
  link_error, resolves,
}
use x_sync.Text.{is_protocol_id}
use x_sync.Validate.State.{is_valid_state}

committed_events-chain :
    (event_id : ℕ → String) (index sequence version : ℕ) (items : List PendingDialogueEvent)
    (previous : Option CommittedDialogueEvent)
    → ((before : CommittedDialogueEvent)
        → previous ≡ some before
        → (before.sequence ≡ sequence) × (before.to_version ≡ version))
    → chain_error previous (committed_events event_id index sequence version items) ≡ none
unfolding chain_error committed_events committed_event link_error
committed_events-chain event_id index sequence version [] previous k = refl
committed_events-chain event_id index sequence version (item ∷ items) none k = ground (
  arith,
  committed_events-chain event_id (index + 1) (sequence + 1)
      (version + conversation_version_delta item.payload) items
      (some (committed_event event_id index sequence version item)) (λ b e. ground arith),
)
committed_events-chain event_id index sequence version (item ∷ items) (some before) k = ground (
  arith,
  k before refl,
  committed_events-chain event_id (index + 1) (sequence + 1)
      (version + conversation_version_delta item.payload) items
      (some (committed_event event_id index sequence version item)) (λ b e. ground arith),
)

-- A handler gives one event that is no failure, or a failure with its resolution.
handler-failure :
    (event_id : ℕ → String) (index sequence version : ℕ) (state : DialogueState)
    (command : DialogueCommand) (context : DecisionContext) (items : List PendingDialogueEvent)
    → handler state command context ≡ accepted items
    → failure_error (committed_events event_id index sequence version items) ≡ none
unfolding handler failure_error committed_events committed_event is_failure_payload resolves
    failed_event requeued_event dead_lettered_event any
handler-failure event_id index sequence version state (start_session c) context items e =
    ground arith
handler-failure event_id index sequence version state c context items e = ground arith

module _ ⦃h : Sha256⦄ where
  -- What `decide` has checked when it accepts a command.
  pub decide-accepted :
      (state : DialogueState) (command : DialogueCommand) (context : DecisionContext)
      {items : List PendingDialogueEvent}
      → decide state command context ≡ accepted items
      → (is_valid_state state ≡ true)
        × (valid_decision_context context ≡ true)
        × (context.registry_generation ≡ state.registry_generation)
        × (is_protocol_id (command_id command) ≡ true)
        × (lifecycle_allowed command state.lifecycle ≡ true)
        × (handler state command context ≡ accepted items)
  unfolding decide
  decide-accepted state command context e = ground arith

  -- The events of an accepted command, numbered from the tip as the coordinator numbers them, pass the
  -- batch test of the event store: no gap, no version conflict and no failure without its resolution.
  pub batch_error-decide :
      (event_id : ℕ → String) (state : DialogueState) (command : DialogueCommand)
      (context : DecisionContext) (items : List PendingDialogueEvent)
      → decide state command context ≡ accepted items
      → batch_error (committed_events event_id 1 state.sequence state.conversation_version items)
        ≡ none
  unfolding batch_error
  batch_error-decide event_id state command context items e = ground (
    arith,
    committed_events-chain event_id 1 state.sequence state.conversation_version items none
        (λ before p. ground arith),
    handler-failure event_id 1 state.sequence state.conversation_version state command context items
        (decide-accepted state command context e).5,
  )
