-- ===== src/Decide/Export.antt =====
-- xsync_v2/state_machine.py: `_request_export` and `_complete_export`.
use x_sync.Prelude.{
  Bool, List, Option, String, String-eq, [], any, if◌then◌else◌, is_none, is_some, keep, length,
  none, not, some, ◌!=◌, ◌&&◌, ◌+◌, ◌==◌, ◌||◌, ◌∷◌,
}
use x_sync.Domain.{
  CompleteExport, DecisionContext, DialogueState, ExportRecord, ExportStatus, ExportStatus-eq,
  RequestExport, export_completed, export_requested,
}
use x_sync.Decision.{Code, Decision, accept, rejected}
use x_sync.Text.{is_protocol_id, is_sha256_digest, valid_text}

-- The export uses one of the two ids.
unfoldable pub uses_export_ids : String → String → ExportRecord → Bool
uses_export_ids export_id intent_id item =
    (item.export_id == export_id) || (item.intent_id == intent_id)

unfoldable pub request_export_handler : DialogueState → RequestExport → DecisionContext → Decision
request_export_handler state command context =
    if not (is_protocol_id command.export_id)
      || not (is_protocol_id command.intent_id)
      || not (valid_text command.requested_at)
      || not (is_sha256_digest command.payload_digest)
      || is_some context.trigger
    then rejected Code.validation_failed
    else if any (uses_export_ids command.export_id command.intent_id) state.exports
    then rejected Code.idempotency_conflict
    else accept command.command_id (
        export_requested (record {
          export_id = command.export_id;
          export_sequence = length state.exports + 1;
          intent_id = command.intent_id;
          as_of_event_sequence = state.sequence;
          requested_at = command.requested_at;
          payload_digest = command.payload_digest;
        }))

-- `matches[0]`, if there is exactly one match.
unfoldable pub single {ℓ} : {A : Type ℓ} → List A → Option A
single (x ∷ []) = some x
single _ = none

unfoldable pub matching_exports : String → List ExportRecord → List ExportRecord
matching_exports export_id = keep (λ (item : ExportRecord). item.export_id == export_id)

-- The tests of `_complete_export` on the command and the context.
unfoldable pub valid_completion : CompleteExport → DecisionContext → Bool
valid_completion command context =
    is_protocol_id command.export_id
    && is_protocol_id command.intent_id
    && valid_text command.completed_at
    && is_protocol_id command.json_path
    && is_sha256_digest command.json_digest
    && is_protocol_id command.markdown_path
    && is_sha256_digest command.markdown_digest
    && is_sha256_digest command.freshness_overlay_digest
    && is_none context.trigger

unfoldable pub complete_export_on : ExportRecord → CompleteExport → Decision
complete_export_on export command =
    if export.status != ExportStatus.requested || export.intent_id != command.intent_id
    then rejected Code.idempotency_conflict
    else accept command.command_id (
        export_completed (record {
          export_id = export.export_id;
          export_sequence = export.export_sequence;
          intent_id = export.intent_id;
          completed_at = command.completed_at;
          json_path = command.json_path;
          json_digest = command.json_digest;
          markdown_path = command.markdown_path;
          markdown_digest = command.markdown_digest;
          freshness_overlay_digest = command.freshness_overlay_digest;
        }))

unfoldable pub complete_export_handler : DialogueState → CompleteExport → DecisionContext → Decision
complete_export_handler state command context =
    if not (valid_completion command context)
    then rejected Code.validation_failed
    else elim (single (matching_exports command.export_id state.exports)) [
      | none ↦ rejected Code.topic_state_conflict
      | some export ↦ complete_export_on export command
    ]
