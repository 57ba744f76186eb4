-- ===== src/Registry/Reduce.antt =====
-- `_apply_event` and `reduce` of xsync_v2/registry.py.
use x_sync.Prelude.{
  Error, List, Option, Result, String-eq, [], err, guard, if◌then◌else◌, is_some, map, none, ok,
  some, ℕ, ◌++◌, ◌==◌, ◌>>=◌, ◌>>◌, ◌∷◌,
}
use x_sync.Registry.Decide.{receipt_for_command}
use x_sync.Registry.Events.{
  Activated, CommittedRegistryEvent, CommittedRegistryTransaction, RegistryEventPayload,
  deactivation_started, dialogue_activated, dialogue_created, dialogue_deactivated,
}
use x_sync.Registry.Model.{
  ActivateTarget, CommandReceipt, DialogueRegistrationStatus, PendingHandoff, QuiesceProof,
  RegisteredDialogue, RegistryState,
}
use x_sync.Registry.Transaction.{
  event_digests_of, event_ids_of, last_sequence, validate_transaction,
}
use x_sync.Registry.Valid.{dialogue_by_id, valid_registry_state}

unfoldable pub replace_dialogue :
    RegisteredDialogue → List RegisteredDialogue → List RegisteredDialogue
replace_dialogue updated =
    map (λ (item : RegisteredDialogue).
      if item.session_id == updated.session_id then updated else item)

abbrev pub registered : ActivateTarget → ℕ → RegisteredDialogue
registered target registry_sequence = record {
  session_id = target.session_id;
  config_digest = target.config_digest;
  status = DialogueRegistrationStatus.created;
  created_registry_sequence = registry_sequence;
  activated_generation = none;
  deactivated_generation = none;
  deactivation_handoff_id = none;
}

-- The dialogue that an event changes; an event that names none is no transaction of the log.
abbrev pub with_dialogue :
    Option RegisteredDialogue → (RegisteredDialogue → Result RegistryState) → Result RegistryState
with_dialogue none rest = err Error.invalid_registry_transaction
with_dialogue (some dialogue) rest = rest dialogue

unfoldable pub apply_started :
    RegistryState → CommittedRegistryEvent → PendingHandoff → RegisteredDialogue → RegistryState
apply_started state event handoff source = record state {
  registry_sequence = event.registry_sequence;
  generation = handoff.generation;
  dialogues =
      replace_dialogue (record source { status = DialogueRegistrationStatus.deactivating })
        state.dialogues;
  pending_handoff = some handoff;
}

unfoldable pub apply_deactivated :
    RegistryState → CommittedRegistryEvent → QuiesceProof → RegisteredDialogue → RegistryState
apply_deactivated state event proof source = record state {
  registry_sequence = event.registry_sequence;
  current_session_id = none;
  dialogues =
      replace_dialogue
        (record source {
          status = DialogueRegistrationStatus.deactivated;
          deactivated_generation = some proof.generation;
          deactivation_handoff_id = some proof.handoff_id;
        })
        state.dialogues;
}

unfoldable pub apply_activated :
    RegistryState → CommittedRegistryEvent → Activated → RegisteredDialogue → RegistryState
apply_activated state event activated target = record state {
  registry_sequence = event.registry_sequence;
  generation = activated.generation;
  current_session_id = some activated.target.session_id;
  dialogues =
      replace_dialogue
        (record target {
          status = DialogueRegistrationStatus.active;
          activated_generation = some activated.generation;
        })
        state.dialogues;
  pending_handoff = none;
}

unfoldable pub apply_event :
    RegistryState → CommittedRegistryEvent → RegistryEventPayload → Result RegistryState
apply_event state event (dialogue_created p) = ok (record state {
  registry_sequence = event.registry_sequence;
  dialogues = state.dialogues ++ registered p.target event.registry_sequence ∷ [];
})
apply_event state event (deactivation_started p) =
    with_dialogue (dialogue_by_id state.dialogues p.handoff.source_session_id)
      (λ source. ok (apply_started state event p.handoff source))
apply_event state event (dialogue_deactivated p) =
    with_dialogue (dialogue_by_id state.dialogues p.proof.source_session_id)
      (λ source. ok (apply_deactivated state event p.proof source))
apply_event state event (dialogue_activated p) =
    with_dialogue (dialogue_by_id state.dialogues p.target.session_id)
      (λ target. ok (apply_activated state event p target))

unfoldable pub apply_events : RegistryState → List CommittedRegistryEvent → Result RegistryState
apply_events state [] = ok state
apply_events state (event ∷ events) = do
  next_state ← apply_event state event event.payload
  apply_events next_state events

abbrev pub receipt_of :
    CommittedRegistryTransaction
    → CommittedRegistryEvent
    → List CommittedRegistryEvent
    → CommandReceipt
receipt_of transaction first rest = record {
  command_id = first.command_id;
  body_digest = first.body_digest;
  transaction_id = transaction.transaction_id;
  transaction_digest = transaction.transaction_digest;
  first_registry_sequence = first.registry_sequence;
  last_registry_sequence = last_sequence first.registry_sequence rest;
  event_ids = event_ids_of (first ∷ rest);
  event_digests = event_digests_of (first ∷ rest);
}

-- The fold of the events with the receipt of the command behind them.
unfoldable pub reduce_events :
    RegistryState
    → CommittedRegistryTransaction
    → CommittedRegistryEvent
    → List CommittedRegistryEvent
    → Result RegistryState
reduce_events state transaction first rest =
    if is_some (receipt_for_command state.receipts first.command_id) then ok state else (do
      reduced ← apply_events state (first ∷ rest)
      let next_state = record reduced {
        receipts = reduced.receipts ++ receipt_of transaction first rest ∷ [];
      }
      guard (valid_registry_state next_state) Error.state_invariant_violation
      ok next_state)

unfoldable pub reduce_registry : RegistryState → CommittedRegistryTransaction → Result RegistryState
reduce_registry state transaction = do
  validate_transaction state transaction
  elim transaction.events [
    | [] ↦ err Error.invalid_registry_transaction
    | first ∷ rest ↦ reduce_events state transaction first rest
  ]
