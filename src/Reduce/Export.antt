-- ===== src/Reduce/Export.antt =====
-- xsync_v2/state_machine.py: the branches of `reduce` for `ExportRequested` and `ExportCompleted`.
use x_sync.Prelude.{
  Bool, Result, String-eq, [], any, false, if◌then◌else◌, length, map, none, not, ok, some, when,
  ℕ-eq, ◌&&◌, ◌++◌, ◌+◌, ◌==◌, ◌>>◌, ◌||◌, ◌∷◌,
}
use x_sync.Domain.{
  CommittedDialogueEvent, DialogueState, ExportCompleted, ExportRecord, ExportRequested,
  ExportStatus, ExportStatus-eq, SessionLifecycle, SessionLifecycle-eq,
}
use x_sync.Decide.Export.{matching_exports, single, uses_export_ids}
use x_sync.Reduce.Envelope.{advance, require, valid_export_completed_shape}
use x_sync.Text.{is_protocol_id, is_sha256_digest, valid_text}

unfoldable pub exports_allowed : SessionLifecycle → Bool
exports_allowed lifecycle =
    (lifecycle == SessionLifecycle.opened) || (lifecycle == SessionLifecycle.ended)

unfoldable pub requested_record : ExportRequested → ExportRecord
requested_record payload = record {
  export_id = payload.export_id;
  export_sequence = payload.export_sequence;
  intent_id = payload.intent_id;
  as_of_event_sequence = payload.as_of_event_sequence;
  requested_at = payload.requested_at;
  payload_digest = payload.payload_digest;
  status = ExportStatus.requested;
  completed_at = none;
  json_path = none;
  json_digest = none;
  markdown_path = none;
  markdown_digest = none;
  freshness_overlay_digest = none;
}

unfoldable pub reduce_export_requested :
    DialogueState → CommittedDialogueEvent → ExportRequested → Result DialogueState
reduce_export_requested state event payload = do
  require (
      exports_allowed state.lifecycle
      && is_protocol_id payload.export_id
      && (payload.export_sequence == length state.exports + 1)
      && is_protocol_id payload.intent_id
      && (payload.as_of_event_sequence == state.sequence)
      && valid_text payload.requested_at
      && is_sha256_digest payload.payload_digest
      && not (any (uses_export_ids payload.export_id payload.intent_id) state.exports))
  let next_state = advance state event
  ok (record next_state { exports = state.exports ++ requested_record payload ∷ [] })

-- The record of a completed export.
unfoldable pub complete_record : ExportCompleted → ExportRecord → ExportRecord
complete_record payload item =
    if item.export_id == payload.export_id
    then record item {
      status = ExportStatus.completed;
      completed_at = some payload.completed_at;
      json_path = some payload.json_path;
      json_digest = some payload.json_digest;
      markdown_path = some payload.markdown_path;
      markdown_digest = some payload.markdown_digest;
      freshness_overlay_digest = some payload.freshness_overlay_digest;
    }
    else item

-- The export that the event completes is requested, under the same sequence and intent.
unfoldable pub is_completable : ExportCompleted → ExportRecord → Bool
is_completable payload export =
    (export.status == ExportStatus.requested)
    && (export.export_sequence == payload.export_sequence)
    && (export.intent_id == payload.intent_id)

unfoldable pub reduce_export_completed :
    DialogueState → CommittedDialogueEvent → ExportCompleted → Result DialogueState
reduce_export_completed state event payload = do
  require (exports_allowed state.lifecycle && valid_export_completed_shape payload)
  require (
      when false (is_completable payload)
        (single (matching_exports payload.export_id state.exports)))
  let next_state = advance state event
  ok (record next_state { exports = map (complete_record payload) state.exports })
