-- ===== src/Registry/Decide.antt =====
-- `initial_registry_state` and `decide` of xsync_v2/registry.py.
use x_sync.Prelude.{
  Bool, Error, List, Option, Option-eq, Result, String, String-eq, [], any, err, false,
  if◌then◌else◌, is_some, map, none, not, ok, some, when, ℕ, ℕ-eq, ◌!=◌, ◌&&◌, ◌+◌, ◌==◌, ◌||◌, ◌∷◌,
}
use x_sync.Domain.{command_id}
use x_sync.Decision.{pending}
use x_sync.Registry.Events.{
  BeginHandoff, CompleteHandoff, CreateAndActivateDialogue, RegistryCode, RegistryCommand,
  RegistryDecision, RegistryEventPayload, begin_handoff, complete_handoff,
  create_and_activate_dialogue, deactivation_started, dialogue_activated, dialogue_created,
  dialogue_deactivated, registry_accepted, registry_idempotent, registry_rejected,
}
use x_sync.Registry.Model.{
  ActivateTarget-eq, ActivationKind, CommandReceipt, DialogueRegistrationStatus,
  DialogueRegistrationStatus-eq, PendingHandoff, QuiesceProof, RegisteredDialogue, RegistryState,
}
use x_sync.Registry.Valid.{
  dialogue_by_id, is_active, valid_proof, valid_registry_state, valid_target,
}
use x_sync.Text.{is_protocol_id, is_sha256_digest}

unfoldable pub initial_registry_state : String → Result RegistryState
initial_registry_state registry_id =
    if not (is_protocol_id registry_id)
    then err Error.invalid_registry_id
    else ok (record {
      registry_id = registry_id;
      registry_sequence = 0;
      generation = 0;
      current_session_id = none;
      dialogues = [];
      pending_handoff = none;
      receipts = [];
    })

-- The fields that every command has.
abbrev pub registry_command_id : RegistryCommand → String
registry_command_id (create_and_activate_dialogue c) = c.command_id
registry_command_id (begin_handoff c) = c.command_id
registry_command_id (complete_handoff c) = c.command_id

abbrev pub body_digest : RegistryCommand → String
body_digest (create_and_activate_dialogue c) = c.body_digest
body_digest (begin_handoff c) = c.body_digest
body_digest (complete_handoff c) = c.body_digest

abbrev pub expected_registry_sequence : RegistryCommand → ℕ
expected_registry_sequence (create_and_activate_dialogue c) = c.expected_registry_sequence
expected_registry_sequence (begin_handoff c) = c.expected_registry_sequence
expected_registry_sequence (complete_handoff c) = c.expected_registry_sequence

abbrev pub expected_generation : RegistryCommand → ℕ
expected_generation (create_and_activate_dialogue c) = c.expected_generation
expected_generation (begin_handoff c) = c.expected_generation
expected_generation (complete_handoff c) = c.expected_generation

unfoldable pub valid_command_body : RegistryCommand → Bool
valid_command_body (create_and_activate_dialogue c) = valid_target c.target
valid_command_body (begin_handoff c) =
    is_protocol_id c.handoff_id
    && is_protocol_id c.source_session_id
    && valid_target c.target
    && (c.source_session_id != c.target.session_id)
valid_command_body (complete_handoff c) = is_protocol_id c.handoff_id && valid_proof c.proof

unfoldable pub valid_command : RegistryCommand → Bool
valid_command command =
    is_protocol_id (registry_command_id command)
    && is_sha256_digest (body_digest command)
    && valid_command_body command

-- The first receipt of this command.
unfoldable pub receipt_for_command : List CommandReceipt → String → Option CommandReceipt
receipt_for_command [] command_id = none
receipt_for_command (item ∷ items) command_id =
    if item.command_id == command_id then some item else receipt_for_command items command_id

abbrev pub accept_payloads : RegistryCommand → List RegistryEventPayload → RegistryDecision
accept_payloads command payloads = registry_accepted (
    map
      (λ (payload : RegistryEventPayload). record {
        command_id = registry_command_id command;
        body_digest = body_digest command;
        payload = payload;
      })
      payloads)

unfoldable pub decide_create : RegistryState → CreateAndActivateDialogue → RegistryDecision
decide_create state create =
    if is_some state.current_session_id
      || is_some state.pending_handoff
      || is_some (dialogue_by_id state.dialogues create.target.session_id)
    then registry_rejected RegistryCode.registry_state_conflict
    else accept_payloads (create_and_activate_dialogue create) (
        dialogue_created (record { target = create.target })
        ∷ dialogue_activated (record {
          target = create.target;
          generation = state.generation + 1;
          activation_kind = ActivationKind.initial;
          handoff_id = none;
        })
        ∷ [])

-- The handoff that starts with the last of `event_count` events.
unfoldable pub started_handoff : RegistryState → BeginHandoff → ℕ → PendingHandoff
started_handoff state begin event_count = record {
  handoff_id = begin.handoff_id;
  source_session_id = begin.source_session_id;
  target = begin.target;
  generation = state.generation + 1;
  started_registry_sequence = state.registry_sequence + event_count;
}

unfoldable pub begin_with_target :
    RegistryState → BeginHandoff → Option RegisteredDialogue → RegistryDecision
begin_with_target state begin none = accept_payloads (begin_handoff begin) (
    dialogue_created (record { target = begin.target })
    ∷ deactivation_started (record { handoff = started_handoff state begin 2 })
    ∷ [])
begin_with_target state begin (some target) =
    if (target.status == DialogueRegistrationStatus.created)
      && (target.config_digest == begin.target.config_digest)
    then accept_payloads (begin_handoff begin)
        (deactivation_started (record { handoff = started_handoff state begin 1 }) ∷ [])
    else registry_rejected RegistryCode.target_session_conflict

unfoldable pub used_handoff : String → RegisteredDialogue → Bool
used_handoff handoff_id item = item.deactivation_handoff_id == some handoff_id

unfoldable pub decide_begin : RegistryState → BeginHandoff → RegistryDecision
decide_begin state begin =
    if is_some state.pending_handoff
    then registry_rejected RegistryCode.handoff_in_progress
    else if some begin.source_session_id != state.current_session_id
    then registry_rejected RegistryCode.session_not_current
    else if not (when false is_active (dialogue_by_id state.dialogues begin.source_session_id))
    then registry_rejected RegistryCode.registry_state_conflict
    else if any (used_handoff begin.handoff_id) state.dialogues
    then registry_rejected RegistryCode.handoff_id_conflict
    else begin_with_target state begin (dialogue_by_id state.dialogues begin.target.session_id)

-- `_proof_matches_pending`.
unfoldable pub proof_matches_pending : QuiesceProof → PendingHandoff → Bool
proof_matches_pending proof pending =
    (proof.source_session_id == pending.source_session_id)
    && (proof.target == pending.target)
    && (proof.handoff_id == pending.handoff_id)
    && (proof.generation == pending.generation)

unfoldable pub complete_pending : CompleteHandoff → Option PendingHandoff → RegistryDecision
complete_pending complete none = registry_rejected RegistryCode.registry_state_conflict
complete_pending complete (some handoff) =
    if (complete.handoff_id != handoff.handoff_id)
      || not (proof_matches_pending complete.proof handoff)
    then registry_rejected RegistryCode.handoff_proof_invalid
    else accept_payloads (complete_handoff complete) (
        dialogue_deactivated (record { proof = complete.proof })
        ∷ dialogue_activated (record {
          target = handoff.target;
          generation = handoff.generation;
          activation_kind = ActivationKind.handoff;
          handoff_id = some handoff.handoff_id;
        })
        ∷ [])

unfoldable pub decide_command : RegistryState → RegistryCommand → RegistryDecision
decide_command state (create_and_activate_dialogue create) = decide_create state create
decide_command state (begin_handoff begin) = decide_begin state begin
decide_command state (complete_handoff complete) = complete_pending complete state.pending_handoff

-- A command that the log has seen is idempotent or in conflict.
unfoldable pub decide_seen : RegistryCommand → CommandReceipt → RegistryDecision
decide_seen command receipt =
    if receipt.body_digest == body_digest command
    then registry_idempotent receipt
    else registry_rejected RegistryCode.idempotency_conflict

unfoldable pub decide_fresh : RegistryState → RegistryCommand → RegistryDecision
decide_fresh state command =
    if expected_registry_sequence command != state.registry_sequence
    then registry_rejected RegistryCode.registry_sequence_conflict
    else if expected_generation command != state.generation
    then registry_rejected RegistryCode.registry_generation_conflict
    else decide_command state command

unfoldable pub decide_registry : RegistryState → RegistryCommand → RegistryDecision
decide_registry state command =
    if not (valid_registry_state state)
    then registry_rejected RegistryCode.state_invariant_violation
    else if not (valid_command command)
    then registry_rejected RegistryCode.validation_failed
    else elim (receipt_for_command state.receipts (registry_command_id command)) [
      | some receipt ↦ decide_seen command receipt
      | none ↦ decide_fresh state command
    ]
