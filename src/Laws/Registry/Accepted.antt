-- ===== src/Laws/Registry/Accepted.antt =====
-- What `decide` of xsync_v2/registry.py accepts passes `validate_transaction` once it is numbered.
use mathlib.Core.Path.{subst}
use x_sync.Prelude.{
  List, Option-cases, [], arith, count, inl, inr, none, ok, refl, some, sym, true, ℕ, ◌+◌, ◌∷◌, ◌≡◌,
  ◌≤◌,
}
use x_sync.Registry.Build.{payload_generation}
use x_sync.Registry.Decide.{
  begin_with_target, body_digest, complete_pending, decide_begin, decide_command, decide_create,
  decide_fresh, decide_registry, decide_seen, proof_matches_pending, receipt_for_command,
  registry_command_id, started_handoff, valid_command, valid_command_body,
}
use x_sync.Registry.Events.{
  BeginHandoff, CompleteHandoff, CreateAndActivateDialogue, PendingRegistryEvent, RegistryCommand,
  RegistryEventPayload, begin_handoff, complete_handoff, create_and_activate_dialogue,
  deactivation_started, dialogue_activated, dialogue_created, dialogue_deactivated,
  registry_accepted,
}
use x_sync.Registry.Model.{ActivationKind, PendingHandoff, RegistryState}
use x_sync.Registry.Transaction.{
  begin_context, completes_pending, expected_event_generation, is_open_target, valid_activated,
  valid_payload, valid_transaction_shape,
}
use x_sync.Registry.Valid.{
  dialogue_by_id, valid_currency, valid_handoff, valid_pending, valid_registry_state,
}
use x_sync.Text.{is_optional_protocol_id}

pub decide_registry-fresh :
    (state : RegistryState) (command : RegistryCommand) (events : List PendingRegistryEvent)
    → decide_registry state command ≡ registry_accepted events
    → (valid_registry_state state ≡ true)
      × (valid_command command ≡ true)
      × (receipt_for_command state.receipts (registry_command_id command) ≡ none)
      × (decide_command state command ≡ registry_accepted events)
unfolding decide_registry decide_seen decide_fresh
decide_registry-fresh state command events d =
    elim (Option-cases (receipt_for_command state.receipts (registry_command_id command))) [
      | inl n ↦ (ground arith, ground arith, ground arith, ground arith)
      | inr (receipt, f) ↦ ground arith
    ]

-- The event of a command with this payload.
abbrev pub pending_of : RegistryCommand → RegistryEventPayload → PendingRegistryEvent
pending_of command payload = record {
  command_id = registry_command_id command;
  body_digest = body_digest command;
  payload = payload;
}

-- A payload that is valid and has its generation in this state.
abbrev pub Fits : RegistryState → RegistryEventPayload → Type 0
Fits state payload =
    (valid_payload payload ≡ true)
    × (expected_event_generation state payload ≡ ok (payload_generation state payload))

-- The payloads that a command is accepted with.
pub data Batch (state : RegistryState) (command : RegistryCommand)
    : List PendingRegistryEvent → Type 0 where
  one :
      (p : RegistryEventPayload)
      → Fits state p
      → valid_transaction_shape state (state.registry_sequence + 1) (p ∷ []) ≡ true
      → Batch state command (pending_of command p ∷ [])
  two :
      (p q : RegistryEventPayload)
      → Fits state p
      → Fits state q
      → valid_transaction_shape state (state.registry_sequence + 1 + 1) (p ∷ q ∷ []) ≡ true
      → Batch state command (pending_of command p ∷ pending_of command q ∷ [])

module _ (state : RegistryState) (v : valid_registry_state state ≡ true) where
  create-Batch :
      (c : CreateAndActivateDialogue) (events : List PendingRegistryEvent)
      → valid_command (create_and_activate_dialogue c) ≡ true
      → decide_create state c ≡ registry_accepted events
      → Batch state (create_and_activate_dialogue c) events
  unfolding decide_create valid_command valid_command_body valid_payload valid_activated
      expected_event_generation payload_generation valid_transaction_shape is_optional_protocol_id
  create-Batch c events w d =
      let e : events
          ≡ pending_of (create_and_activate_dialogue c)
              (dialogue_created (record { target = c.target }))
            ∷ pending_of (create_and_activate_dialogue c) (
                dialogue_activated (record {
                  target = c.target;
                  generation = state.generation + 1;
                  activation_kind = ActivationKind.initial;
                  handoff_id = none;
                }))
            ∷ [] =
        ground arith in
      subst (λ events. Batch state (create_and_activate_dialogue c) events) (sym e)
        (Batch.two _ _ (ground arith, ground arith) (ground arith, ground arith) (ground arith))

  started-Fits :
      (b : BeginHandoff) (count : ℕ)
      → valid_command (begin_handoff b) ≡ true
      → 1 ≤ count
      → Fits state (deactivation_started (record { handoff = started_handoff state b count }))
  unfolding valid_command valid_command_body valid_payload valid_pending started_handoff
      expected_event_generation payload_generation
  started-Fits b count w o = (ground arith, ground arith)

  begin-context :
      (b : BeginHandoff) (count : ℕ) (events : List PendingRegistryEvent)
      → decide_begin state b ≡ registry_accepted events
      → begin_context state (started_handoff state b count) ≡ true
  unfolding decide_begin begin_context started_handoff
  begin-context b count events d = ground arith

  begin-target :
      (b : BeginHandoff) (events : List PendingRegistryEvent)
      → decide_begin state b ≡ registry_accepted events
      → begin_with_target state b (dialogue_by_id state.dialogues b.target.session_id)
        ≡ registry_accepted events
  unfolding decide_begin
  begin-target b events d = ground arith

  begin-Batch :
      (b : BeginHandoff) (events : List PendingRegistryEvent)
      → valid_command (begin_handoff b) ≡ true
      → decide_begin state b ≡ registry_accepted events
      → Batch state (begin_handoff b) events
  unfolding begin_with_target valid_transaction_shape is_open_target valid_command
      valid_command_body valid_payload expected_event_generation payload_generation started_handoff
  begin-Batch b events w d =
      let accepted_by = begin-target b events d in
      elim (Option-cases (dialogue_by_id state.dialogues b.target.session_id)) [
        | inl n ↦
            let context = begin-context b 2 events d in
            let e : events
                ≡ pending_of (begin_handoff b) (dialogue_created (record { target = b.target }))
                  ∷ pending_of (begin_handoff b)
                      (deactivation_started (record { handoff = started_handoff state b 2 }))
                  ∷ [] =
              ground arith in
            subst (λ events. Batch state (begin_handoff b) events) (sym e)
              (Batch.two _ _ (ground arith, refl) (started-Fits b 2 w (omega arith)) (ground arith))
        | inr (target, f) ↦
            let context = begin-context b 1 events d in
            let e : events
                ≡ pending_of (begin_handoff b)
                    (deactivation_started (record { handoff = started_handoff state b 1 }))
                  ∷ [] =
              ground arith in
            subst (λ events. Batch state (begin_handoff b) events) (sym e)
              (Batch.one _ (started-Fits b 1 w (omega arith)) (ground arith))
      ]

  pending-facts :
      (handoff : PendingHandoff)
      → state.pending_handoff ≡ some handoff
      → (valid_pending handoff ≡ true) × (handoff.generation ≡ state.generation)
  unfolding valid_registry_state valid_currency valid_handoff
  pending-facts handoff p = (ground arith, ground arith)

  complete-Batch :
      (c : CompleteHandoff) (events : List PendingRegistryEvent)
      → valid_command (complete_handoff c) ≡ true
      → complete_pending c state.pending_handoff ≡ registry_accepted events
      → Batch state (complete_handoff c) events
  unfolding complete_pending valid_command valid_command_body valid_payload valid_activated
      expected_event_generation payload_generation valid_transaction_shape completes_pending
      proof_matches_pending is_optional_protocol_id valid_pending
  complete-Batch c events w d = elim (Option-cases state.pending_handoff) [
    | inl n ↦ ground arith
    | inr (handoff, p) ↦
        let (valid, generation) = pending-facts handoff p in
        let e : events
            ≡ pending_of (complete_handoff c) (dialogue_deactivated (record { proof = c.proof }))
              ∷ pending_of (complete_handoff c) (
                  dialogue_activated (record {
                    target = handoff.target;
                    generation = handoff.generation;
                    activation_kind = ActivationKind.handoff;
                    handoff_id = some handoff.handoff_id;
                  }))
              ∷ [] =
          ground arith in
        subst (λ events. Batch state (complete_handoff c) events) (sym e)
          (Batch.two _ _ (ground arith, ground arith) (ground arith, ground arith) (ground arith))
  ]

  pub decide_command-Batch :
      (command : RegistryCommand) (events : List PendingRegistryEvent)
      → valid_command command ≡ true
      → decide_command state command ≡ registry_accepted events
      → Batch state command events
  unfolding decide_command
  decide_command-Batch (create_and_activate_dialogue c) events w d = create-Batch c events w d
  decide_command-Batch (begin_handoff b) events w d = begin-Batch b events w d
  decide_command-Batch (complete_handoff c) events w d = complete-Batch c events w d
