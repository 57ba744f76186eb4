-- ===== src/Registry/Transaction.antt =====
-- `validate_transaction` of xsync_v2/registry.py and what it calls.
use x_sync.Prelude.{
  Bool, Error, List, List-eq, Option-eq, Result, String, String-eq, [], all, any, err, false, guard,
  has, if◌then◌else◌, is_distinct, is_none, is_some, leb, length, map, none, not, ok, some, true,
  when, ℕ, ℕ-eq, ◌!=◌, ◌&&◌, ◌+◌, ◌==◌, ◌>>=◌, ◌>>◌, ◌||◌, ◌∷◌,
}
use x_sync.Decision.{pending}
use x_sync.Registry.Decide.{proof_matches_pending, receipt_for_command}
use x_sync.Registry.Events.{
  Activated, CommittedRegistryEvent, CommittedRegistryTransaction, RegistryEventPayload,
  deactivation_started, dialogue_activated, dialogue_created, dialogue_deactivated,
}
use x_sync.Registry.Model.{
  ActivateTarget-eq, ActivationKind, ActivationKind-eq, CommandReceipt, DialogueRegistrationStatus,
  DialogueRegistrationStatus-eq, PendingHandoff, QuiesceProof, RegisteredDialogue, RegistryState,
}
use x_sync.Registry.Valid.{
  dialogue_by_id, is_active, receipt_event_ids, valid_pending, valid_proof, valid_registry_state,
  valid_target,
}
use x_sync.Text.{is_optional_protocol_id, is_protocol_id, is_sha256_digest}

unfoldable pub valid_activated : Activated → ActivationKind → Bool
valid_activated activated ActivationKind.initial = is_none activated.handoff_id
valid_activated activated ActivationKind.handoff = is_some activated.handoff_id

-- `_valid_payload`.
unfoldable pub valid_payload : RegistryEventPayload → Bool
valid_payload (dialogue_created p) = valid_target p.target
valid_payload (deactivation_started p) = valid_pending p.handoff
valid_payload (dialogue_deactivated p) = valid_proof p.proof
valid_payload (dialogue_activated p) =
    valid_target p.target
    && leb 1 p.generation
    && is_optional_protocol_id p.handoff_id
    && valid_activated p p.activation_kind

-- `_validate_event_envelope` raises `INVALID_REGISTRY_EVENT` exactly where this is false.
unfoldable pub valid_event_envelope : CommittedRegistryEvent → Bool
valid_event_envelope event =
    is_protocol_id event.event_id
    && is_sha256_digest event.event_digest
    && leb 1 event.registry_sequence
    && is_protocol_id event.command_id
    && is_sha256_digest event.body_digest
    && valid_payload event.payload

abbrev pub event_ids_of : List CommittedRegistryEvent → List String
event_ids_of = map (λ (item : CommittedRegistryEvent). item.event_id)

abbrev pub event_digests_of : List CommittedRegistryEvent → List String
event_digests_of = map (λ (item : CommittedRegistryEvent). item.event_digest)

-- `events[-1].registry_sequence`, behind an event of this sequence.
abbrev pub last_sequence : ℕ → List CommittedRegistryEvent → ℕ
last_sequence sequence [] = sequence
last_sequence sequence (event ∷ events) = last_sequence event.registry_sequence events

unfoldable pub exact_receipt_match :
    CommandReceipt
    → CommittedRegistryTransaction
    → CommittedRegistryEvent
    → List CommittedRegistryEvent
    → Bool
exact_receipt_match receipt transaction first rest =
    (receipt.transaction_id == transaction.transaction_id)
    && (receipt.transaction_digest == transaction.transaction_digest)
    && (receipt.first_registry_sequence == first.registry_sequence)
    && (receipt.last_registry_sequence == last_sequence first.registry_sequence rest)
    && (receipt.event_ids == event_ids_of (first ∷ rest))
    && (receipt.event_digests == event_digests_of (first ∷ rest))

unfoldable pub same_transaction : CommittedRegistryTransaction → CommandReceipt → Bool
same_transaction transaction receipt =
    (receipt.transaction_id == transaction.transaction_id)
    || (receipt.transaction_digest == transaction.transaction_digest)

unfoldable pub is_replay :
    RegistryState
    → CommittedRegistryTransaction
    → CommittedRegistryEvent
    → List CommittedRegistryEvent
    → Result Bool
is_replay state transaction first rest =
    elim (receipt_for_command state.receipts first.command_id) [
      | some receipt ↦
          if receipt.body_digest != first.body_digest
          then err Error.idempotency_conflict
          else if exact_receipt_match receipt transaction first rest
          then ok true
          else err Error.registry_integrity_error
      | none ↦
          if any (same_transaction transaction) state.receipts
          then err Error.registry_integrity_error
          else ok false
    ]

-- The generation that an event of this payload must have.
unfoldable pub expected_event_generation : RegistryState → RegistryEventPayload → Result ℕ
expected_event_generation state (dialogue_created p) = ok state.generation
expected_event_generation state (deactivation_started p) =
    if p.handoff.generation != state.generation + 1
    then err Error.registry_generation_conflict
    else ok p.handoff.generation
expected_event_generation state (dialogue_deactivated p) =
    if p.proof.generation != state.generation
    then err Error.registry_generation_conflict
    else ok p.proof.generation
expected_event_generation state (dialogue_activated p) =
    if p.generation != (
      if p.activation_kind == ActivationKind.initial
      then state.generation + 1
      else state.generation)
    then err Error.registry_generation_conflict
    else ok p.generation

unfoldable pub validate_event_generation :
    RegistryState → CommittedRegistryEvent → Result (Unit {0})
validate_event_generation state event = do
  expected ← expected_event_generation state event.payload
  guard (event.generation == expected) Error.registry_generation_conflict

unfoldable pub validate_generations :
    RegistryState → List CommittedRegistryEvent → Result (Unit {0})
validate_generations state [] = ok tt
validate_generations state (event ∷ events) = do
  validate_event_generation state event
  validate_generations state events

unfoldable pub begin_context : RegistryState → PendingHandoff → Bool
begin_context state handoff =
    is_none state.pending_handoff
    && (state.current_session_id == some handoff.source_session_id)
    && when false is_active (dialogue_by_id state.dialogues handoff.source_session_id)
    && (handoff.generation == state.generation + 1)

unfoldable pub is_open_target : PendingHandoff → RegisteredDialogue → Bool
is_open_target handoff target =
    (target.status == DialogueRegistrationStatus.created)
    && (target.config_digest == handoff.target.config_digest)

unfoldable pub completes_pending : QuiesceProof → Activated → PendingHandoff → Bool
completes_pending proof activated pending =
    proof_matches_pending proof pending
    && (activated.activation_kind == ActivationKind.handoff)
    && (activated.target == pending.target)
    && (activated.generation == pending.generation)
    && (activated.handoff_id == some pending.handoff_id)

-- `_validate_transaction_shape` on the payloads and the last sequence of the events: it raises
-- `INVALID_REGISTRY_TRANSACTION` exactly where this is false.
unfoldable pub valid_transaction_shape : RegistryState → ℕ → List RegistryEventPayload → Bool
valid_transaction_shape state last (dialogue_created c ∷ dialogue_activated a ∷ []) =
    (a.activation_kind == ActivationKind.initial)
    && (a.target == c.target)
    && (a.generation == state.generation + 1)
    && is_none state.current_session_id
    && is_none state.pending_handoff
    && is_none (dialogue_by_id state.dialogues c.target.session_id)
valid_transaction_shape state last (dialogue_created c ∷ deactivation_started s ∷ []) =
    (c.target == s.handoff.target)
    && (s.handoff.started_registry_sequence == last)
    && is_none (dialogue_by_id state.dialogues c.target.session_id)
    && begin_context state s.handoff
valid_transaction_shape state last (deactivation_started s ∷ []) =
    (s.handoff.started_registry_sequence == last)
    && when false (is_open_target s.handoff)
        (dialogue_by_id state.dialogues s.handoff.target.session_id)
    && begin_context state s.handoff
valid_transaction_shape state last (dialogue_deactivated d ∷ dialogue_activated a ∷ []) =
    when false (completes_pending d.proof a) state.pending_handoff
valid_transaction_shape state last _ = false

abbrev pub payloads_of : List CommittedRegistryEvent → List RegistryEventPayload
payloads_of = map (λ (item : CommittedRegistryEvent). item.payload)

-- The events of a new command are numbered without a gap from this sequence.
unfoldable pub numbered_from : ℕ → List CommittedRegistryEvent → Bool
numbered_from sequence [] = true
numbered_from sequence (event ∷ events) =
    (event.registry_sequence == sequence) && numbered_from (sequence + 1) events

unfoldable pub same_command : CommittedRegistryEvent → CommittedRegistryEvent → Bool
same_command first event =
    (event.command_id == first.command_id) && (event.body_digest == first.body_digest)

-- What is left to test when the transaction is no replay.
unfoldable pub validate_fresh :
    RegistryState → CommittedRegistryEvent → List CommittedRegistryEvent → Result (Unit {0})
validate_fresh state first rest = do
  guard
      (not (
        any (λ (event_id : String). has event_id (receipt_event_ids state.receipts))
          (event_ids_of (first ∷ rest))))
      Error.registry_integrity_error
  validate_generations state (first ∷ rest)
  guard
      (valid_transaction_shape state (last_sequence first.registry_sequence rest)
        (payloads_of (first ∷ rest)))
      Error.invalid_registry_transaction

unfoldable pub validate_events :
    RegistryState
    → CommittedRegistryTransaction
    → CommittedRegistryEvent
    → List CommittedRegistryEvent
    → Result (Unit {0})
validate_events state transaction first rest = do
  guard (all valid_event_envelope (first ∷ rest)) Error.invalid_registry_event
  guard
      (is_some (receipt_for_command state.receipts first.command_id)
        || numbered_from (state.registry_sequence + 1) (first ∷ rest))
      Error.registry_sequence_gap
  guard (all (same_command first) (first ∷ rest)) Error.invalid_registry_transaction
  guard (is_distinct (event_ids_of (first ∷ rest))) Error.registry_integrity_error
  replay ← is_replay state transaction first rest
  if replay then ok tt else validate_fresh state first rest

unfoldable pub validate_transaction :
    RegistryState → CommittedRegistryTransaction → Result (Unit {0})
validate_transaction state transaction = do
  guard (valid_registry_state state) Error.state_invariant_violation
  guard
      (is_protocol_id transaction.transaction_id
        && is_sha256_digest transaction.transaction_digest
        && leb 1 (length transaction.events)
        && leb (length transaction.events) 2)
      Error.invalid_registry_transaction
  elim transaction.events [
    | [] ↦ err Error.invalid_registry_transaction
    | first ∷ rest ↦ validate_events state transaction first rest
  ]
