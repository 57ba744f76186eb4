-- ===== src/Registry/Valid.antt =====
-- The validators of xsync_v2/registry.py up to `_validate_state`. Its patterns of ids and digests are
-- those of work_identity.py.
use x_sync.Prelude.{
  Bool, List, List-eq, Option, Option-eq, String, String-eq, [], all, false, if◌then◌else◌,
  is_distinct, is_empty, is_none, is_some, keep, leb, length, ltb, map, none, some, true, when, ℕ,
  ℕ-eq, ◌!=◌, ◌&&◌, ◌++◌, ◌+◌, ◌-◌, ◌==◌, ◌||◌, ◌∷◌,
}
use x_sync.Registry.Model.{
  ActivateTarget, CommandReceipt, DialogueRegistrationStatus, DialogueRegistrationStatus-eq,
  PendingHandoff, QuiesceProof, RegisteredDialogue, RegisteredDialogue-eq, RegistryState,
}
use x_sync.Text.{is_optional_protocol_id, is_protocol_id, is_sha256_digest}

abbrev pub is_optional_positive : Option ℕ → Bool
is_optional_positive = when true (leb 1)

unfoldable pub valid_target : ActivateTarget → Bool
valid_target value = is_protocol_id value.session_id && is_sha256_digest value.config_digest

-- The generations and the handoff that a registration has under each status.
unfoldable pub valid_registration : RegisteredDialogue → ℕ → DialogueRegistrationStatus → Bool
valid_registration dialogue generation DialogueRegistrationStatus.created =
    is_none dialogue.activated_generation
    && is_none dialogue.deactivated_generation
    && is_none dialogue.deactivation_handoff_id
valid_registration dialogue generation DialogueRegistrationStatus.active =
    when false (λ activated. leb activated generation) dialogue.activated_generation
    && is_none dialogue.deactivated_generation
    && is_none dialogue.deactivation_handoff_id
valid_registration dialogue generation DialogueRegistrationStatus.deactivating =
    when false (λ activated. ltb activated generation) dialogue.activated_generation
    && is_none dialogue.deactivated_generation
    && is_none dialogue.deactivation_handoff_id
valid_registration dialogue generation DialogueRegistrationStatus.deactivated =
    when false
      (λ deactivated.
        when false (λ activated. ltb activated deactivated) dialogue.activated_generation
        && leb deactivated generation)
      dialogue.deactivated_generation
    && is_some dialogue.deactivation_handoff_id

-- `_valid_registered`: the sequence and the generation of the registry bound the registration.
unfoldable pub valid_registered : ℕ → ℕ → RegisteredDialogue → Bool
valid_registered registry_sequence generation dialogue =
    is_protocol_id dialogue.session_id
    && is_sha256_digest dialogue.config_digest
    && leb 1 dialogue.created_registry_sequence
    && leb dialogue.created_registry_sequence registry_sequence
    && is_optional_positive dialogue.activated_generation
    && is_optional_positive dialogue.deactivated_generation
    && is_optional_protocol_id dialogue.deactivation_handoff_id
    && valid_registration dialogue generation dialogue.status

unfoldable pub valid_pending : PendingHandoff → Bool
valid_pending handoff =
    is_protocol_id handoff.handoff_id
    && is_protocol_id handoff.source_session_id
    && valid_target handoff.target
    && (handoff.source_session_id != handoff.target.session_id)
    && leb 1 handoff.generation
    && leb 1 handoff.started_registry_sequence

unfoldable pub valid_proof : QuiesceProof → Bool
valid_proof proof =
    is_protocol_id proof.source_session_id
    && valid_target proof.target
    && (proof.source_session_id != proof.target.session_id)
    && is_protocol_id proof.handoff_id
    && leb 1 proof.generation
    && is_protocol_id proof.dialogue_last_event_id
    && is_sha256_digest proof.dialogue_event_digest
    && is_sha256_digest proof.dialogue_transaction_digest
    && is_sha256_digest proof.dialogue_state_digest

unfoldable pub valid_receipt : CommandReceipt → Bool
valid_receipt receipt =
    is_protocol_id receipt.command_id
    && is_sha256_digest receipt.body_digest
    && is_protocol_id receipt.transaction_id
    && is_sha256_digest receipt.transaction_digest
    && leb 1 receipt.first_registry_sequence
    && leb 1 receipt.last_registry_sequence
    && leb receipt.first_registry_sequence receipt.last_registry_sequence
    && all is_protocol_id receipt.event_ids
    && all is_sha256_digest receipt.event_digests
    && (length receipt.event_ids
        == receipt.last_registry_sequence - receipt.first_registry_sequence + 1)
    && (length receipt.event_digests
        == receipt.last_registry_sequence - receipt.first_registry_sequence + 1)
    && is_distinct receipt.event_ids

-- The first of the dialogues with this id.
unfoldable pub dialogue_by_id : List RegisteredDialogue → String → Option RegisteredDialogue
dialogue_by_id [] session_id = none
dialogue_by_id (item ∷ items) session_id =
    if item.session_id == session_id then some item else dialogue_by_id items session_id

unfoldable pub is_active : RegisteredDialogue → Bool
is_active item = item.status == DialogueRegistrationStatus.active

unfoldable pub is_deactivating : RegisteredDialogue → Bool
is_deactivating item = item.status == DialogueRegistrationStatus.deactivating

-- The loop over the receipts, from the sequence that the next one begins with: where it ends.
unfoldable pub receipts_end : ℕ → ℕ → List CommandReceipt → Option ℕ
receipts_end registry_sequence expected_first [] = some expected_first
receipts_end registry_sequence expected_first (receipt ∷ receipts) =
    let rest = receipts_end registry_sequence (receipt.last_registry_sequence + 1) receipts in
    if (receipt.first_registry_sequence != expected_first)
      || ltb registry_sequence receipt.last_registry_sequence
    then none
    else rest

abbrev pub receipt_event_ids : List CommandReceipt → List String
receipt_event_ids [] = []
receipt_event_ids (receipt ∷ receipts) = receipt.event_ids ++ receipt_event_ids receipts

-- The receipts name commands, transactions and events once, and cover the log without a gap.
unfoldable pub valid_receipts : ℕ → List CommandReceipt → Bool
valid_receipts registry_sequence receipts =
    is_distinct (map (λ (item : CommandReceipt). item.command_id) receipts)
    && is_distinct (map (λ (item : CommandReceipt). item.transaction_id) receipts)
    && is_distinct (receipt_event_ids receipts)
    && (receipts_end registry_sequence 1 receipts == some (registry_sequence + 1))

-- With no handoff pending: nothing is current in generation 0, or the only active dialogue is.
unfoldable pub valid_settled : RegistryState → Option String → Bool
valid_settled state none = is_empty (keep is_active state.dialogues) && (state.generation == 0)
valid_settled state (some session_id) =
    when false
      (λ (current : RegisteredDialogue).
        is_active current
        && (current.activated_generation == some state.generation)
        && (keep is_active state.dialogues == (current ∷ [])))
      (dialogue_by_id state.dialogues session_id)

-- The source of a handoff is the only dialogue that is deactivating, and its target is created.
unfoldable pub valid_handoff : RegistryState → PendingHandoff → Bool
valid_handoff state handoff =
    (state.current_session_id == some handoff.source_session_id)
    && (handoff.generation == state.generation)
    && leb handoff.started_registry_sequence state.registry_sequence
    && when false
        (λ (source : RegisteredDialogue).
          is_deactivating source && (keep is_deactivating state.dialogues == (source ∷ [])))
        (dialogue_by_id state.dialogues handoff.source_session_id)
    && when false
        (λ (target : RegisteredDialogue).
          (target.status == DialogueRegistrationStatus.created)
          && (target.config_digest == handoff.target.config_digest))
        (dialogue_by_id state.dialogues handoff.target.session_id)
    && is_empty (keep is_active state.dialogues)

unfoldable pub valid_currency : RegistryState → Option PendingHandoff → Bool
valid_currency state none =
    is_empty (keep is_deactivating state.dialogues) && valid_settled state state.current_session_id
valid_currency state (some handoff) = valid_handoff state handoff

-- `_validate_state` raises exactly where this is false.
unfoldable pub valid_registry_state : RegistryState → Bool
valid_registry_state state =
    is_protocol_id state.registry_id
    && is_optional_protocol_id state.current_session_id
    && when true valid_pending state.pending_handoff
    && all (valid_registered state.registry_sequence state.generation) state.dialogues
    && all valid_receipt state.receipts
    && is_distinct (map (λ (item : RegisteredDialogue). item.session_id) state.dialogues)
    && valid_receipts state.registry_sequence state.receipts
    && valid_currency state state.pending_handoff
