-- ===== src/Tests/Registry.antt =====
-- The theorems on the registry, at the registration of a dialogue and at a handoff.
use x_sync.Prelude.{
  List, Result, String, String-eq, [], all, any, err, false, has, if◌then◌else◌, inl, is_distinct,
  none, ok, refl, some, true, ℕ, ◌==◌, ◌∷◌, ◌≡◌, ◌⊎◌,
}
use x_sync.Domain.{command_id}
use x_sync.Laws.Registry.Accepted.{pending_of}
use x_sync.Laws.Registry.Completion.{reduce_registry_dialogues}
use x_sync.Laws.Registry.Counters.{Moved, reduce_registry_counters}
use x_sync.Laws.Registry.Current.{is_live, reduce_registry_current}
use x_sync.Laws.Registry.Moves.{Survives}
use x_sync.Laws.Registry.Numbered.{decide_registry-validate_transaction}
use x_sync.Laws.Registry.Replay.{decide_registry_again, reduce_registry_again}
use x_sync.Registry.Build.{RegistryDigests, committed_registry_transaction}
use x_sync.Registry.Decide.{decide_registry, valid_command}
use x_sync.Registry.Events.{
  CommittedRegistryEvent, CommittedRegistryTransaction, PendingRegistryEvent, RegistryCode,
  RegistryCommand, RegistryEventPayload, create_and_activate_dialogue, deactivation_started,
  dialogue_activated, dialogue_created, registry_accepted, registry_idempotent, registry_rejected,
}
use x_sync.Registry.Model.{
  ActivateTarget, ActivationKind, CommandReceipt, DialogueRegistrationStatus, PendingHandoff,
  RegisteredDialogue, RegistryState,
}
use x_sync.Registry.Reduce.{receipt_of, reduce_registry}
use x_sync.Registry.Transaction.{same_transaction, validate_transaction}
use x_sync.Registry.Valid.{receipt_event_ids, valid_registry_state}
use x_sync.Tests.Data.{digest, fixed_sha256}
use x_sync.Tests.Open.{model}
use x_sync.Text.{is_protocol_id, is_sha256_digest}

abbrev digest_b : String
digest_b = "sha256:00000000000000000000000000000000000000000000000000000000000000bb"

abbrev target : String → ActivateTarget
target session_id = record { session_id = session_id; config_digest = digest }

abbrev registry_event : String → ℕ → ℕ → String → RegistryEventPayload → CommittedRegistryEvent
registry_event event_id registry_sequence generation command_id payload = record {
  event_id = event_id;
  event_digest = digest;
  registry_sequence = registry_sequence;
  generation = generation;
  command_id = command_id;
  body_digest = digest_b;
  payload = payload;
}

abbrev empty_registry : RegistryState
empty_registry = record {
  registry_id = "reg-1";
  registry_sequence = 0;
  generation = 0;
  current_session_id = none;
  dialogues = [];
  pending_handoff = none;
  receipts = [];
}

abbrev creation : CommittedRegistryEvent
creation =
    registry_event "evt-1" 1 0 "cmd-1" (dialogue_created (record { target = target "sess-1" }))

abbrev activation : CommittedRegistryEvent
activation = registry_event "evt-2" 2 1 "cmd-1" (
    dialogue_activated (record {
      target = target "sess-1";
      generation = 1;
      activation_kind = ActivationKind.initial;
      handoff_id = none;
    }))

abbrev first_transaction : CommittedRegistryTransaction
first_transaction = record {
  transaction_id = "tx-1";
  transaction_digest = digest;
  events = creation ∷ activation ∷ [];
}

abbrev first_dialogue : RegisteredDialogue
first_dialogue = record {
  session_id = "sess-1";
  config_digest = digest;
  status = DialogueRegistrationStatus.active;
  created_registry_sequence = 1;
  activated_generation = some 1;
  deactivated_generation = none;
  deactivation_handoff_id = none;
}

abbrev pub registry_one : RegistryState
registry_one = record {
  registry_id = "reg-1";
  registry_sequence = 2;
  generation = 1;
  current_session_id = some "sess-1";
  dialogues = first_dialogue ∷ [];
  pending_handoff = none;
  receipts = receipt_of first_transaction creation (activation ∷ []) ∷ [];
}

first_lem : reduce_registry empty_registry first_transaction ≡ ok registry_one
unfolding model
first_lem = refl

abbrev handoff : PendingHandoff
handoff = record {
  handoff_id = "hand-1";
  source_session_id = "sess-1";
  target = target "sess-2";
  generation = 2;
  started_registry_sequence = 4;
}

abbrev second_transaction : CommittedRegistryTransaction
second_transaction = record {
  transaction_id = "tx-2";
  transaction_digest = digest_b;
  events =
      registry_event "evt-3" 3 1 "cmd-2" (dialogue_created (record { target = target "sess-2" }))
      ∷ registry_event "evt-4" 4 2 "cmd-2" (deactivation_started (record { handoff = handoff }))
      ∷ [];
}

abbrev reduced_to : Result RegistryState → RegistryState
reduced_to (err code) = empty_registry
reduced_to (ok state) = state

abbrev registry_two : RegistryState
registry_two = reduced_to (reduce_registry registry_one second_transaction)

second_lem : reduce_registry registry_one second_transaction ≡ ok registry_two
unfolding model
second_lem = refl

reduce_registry_counters_example :
    (valid_registry_state registry_one ≡ true)
    × ((registry_one ≡ empty_registry)
        ⊎ (Moved empty_registry registry_one 2
            × ((receipt : CommandReceipt) × (registry_one.receipts ≡ receipt ∷ []))))
reduce_registry_counters_example =
    reduce_registry_counters empty_registry registry_one first_transaction first_lem

reduce_registry_again_example : reduce_registry registry_one first_transaction ≡ ok registry_one
reduce_registry_again_example =
    reduce_registry_again empty_registry registry_one first_transaction first_lem

abbrev create_command : RegistryCommand
create_command = create_and_activate_dialogue (record {
  command_id = "cmd-1";
  body_digest = digest_b;
  expected_registry_sequence = 0;
  expected_generation = 0;
  target = target "sess-1";
})

create_command-valid : valid_command create_command ≡ true
unfolding model
create_command-valid = refl

decide_registry_again_example :
    (receipt : CommandReceipt) × (receipt.transaction_id ≡ "tx-1")
    × (receipt.event_ids ≡ "evt-1" ∷ "evt-2" ∷ [])
    × (decide_registry registry_one create_command ≡ (
        if digest_b == digest_b
        then registry_idempotent receipt
        else registry_rejected RegistryCode.idempotency_conflict))
decide_registry_again_example =
    decide_registry_again empty_registry registry_one first_transaction create_command creation
      (activation ∷ []) refl refl create_command-valid first_lem

live_lem : is_live first_dialogue ≡ true
unfolding model
live_lem = refl

reduce_registry_current_example :
    (first_dialogue ≡ first_dialogue) × (registry_one.current_session_id ≡ some "sess-1")
reduce_registry_current_example =
    reduce_registry_current empty_registry registry_one first_transaction first_dialogue
      first_dialogue first_lem (inl refl) (inl refl) live_lem live_lem

reduce_registry_dialogues_example : Survives first_dialogue registry_two.dialogues
reduce_registry_dialogues_example =
    reduce_registry_dialogues registry_one registry_two second_transaction first_dialogue second_lem
      (inl refl)

instance abbrev fixed_registry_digests : RegistryDigests
fixed_registry_digests = record {
  digest_of_event = λ event. digest;
  digest_of_transaction = λ transaction. digest;
}

abbrev created_events : List PendingRegistryEvent
created_events =
    pending_of create_command creation.payload ∷ pending_of create_command activation.payload ∷ []

created_lem : decide_registry empty_registry create_command ≡ registry_accepted created_events
unfolding model
created_lem = refl

digest_valid : is_sha256_digest digest ≡ true
unfolding model
digest_valid = refl

tx_valid : is_protocol_id "tx-1" ≡ true
unfolding model
tx_valid = refl

ids_valid : all is_protocol_id ("evt-1" ∷ "evt-2" ∷ []) ≡ true
unfolding model
ids_valid = refl

ids_distinct : is_distinct {A = String} ("evt-1" ∷ "evt-2" ∷ []) ≡ true
unfolding model
ids_distinct = refl

ids_new :
    any
      (λ (event_id : String). has event_id (receipt_event_ids empty_registry.receipts))
      ("evt-1" ∷ "evt-2" ∷ [])
    ≡ false
unfolding model
ids_new = refl

transaction_new :
    any
      (same_transaction (
        committed_registry_transaction empty_registry created_events "tx-1"
          ("evt-1" ∷ "evt-2" ∷ [])))
      empty_registry.receipts
    ≡ false
unfolding model
transaction_new = refl

decide_registry-validate_transaction_example :
    validate_transaction empty_registry
      (committed_registry_transaction empty_registry created_events "tx-1" ("evt-1" ∷ "evt-2" ∷ []))
    ≡ ok tt
decide_registry-validate_transaction_example =
    decide_registry-validate_transaction (λ event. digest_valid) (λ transaction. digest_valid)
      empty_registry create_command created_events "tx-1" ("evt-1" ∷ "evt-2" ∷ []) created_lem
      tx_valid refl ids_valid ids_distinct ids_new transaction_new
