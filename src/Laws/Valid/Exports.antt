-- ===== src/Laws/Valid/Exports.antt =====
-- The export events leave a valid snapshot.
use mathlib.Core.List.{map-append}
use mathlib.Core.Path.{subst}
use x_sync.Prelude.{
  List, String, String-eq, [], all, all-append, all-map, any, arith, false, has, length, map, ok,
  refl, true, ℕ, ◌++◌, ◌+◌, ◌∷◌, ◌≡◌, ◌≤◌,
}
use x_sync.Domain.{
  CommittedDialogueEvent, DialogueState, ExportCompleted, ExportRecord, ExportRequested,
}
use x_sync.Decide.Export.{uses_export_ids}
use x_sync.Identity.{Sha256}
use x_sync.Laws.Valid.Carry.{Carried}
use x_sync.Laws.Valid.Turn.{is_distinct-append_one}
use x_sync.Reduce.Envelope.{advance, valid_export_completed_shape}
use x_sync.Reduce.Export.{
  complete_record, exports_allowed, reduce_export_completed, reduce_export_requested,
  requested_record,
}
use x_sync.Validate.Shapes.{has_completion, lacks_completion, valid_export_record}
use x_sync.Validate.State.{
  active_work, all_topic_ids, counts_from, has_open_turn, holds_one_work, valid_clarification_place,
  valid_ended, valid_export_ids, valid_new, valid_phase, valid_selection, valid_session_kind,
  valid_session_lifecycle, valid_session_work, valid_topic_ids,
}

counts_from-append :
    (start : ℕ) (items : List ExportRecord) (item : ExportRecord)
    → counts_from start items ≡ true
    → item.export_sequence ≡ start + length items
    → counts_from start (items ++ item ∷ []) ≡ true
unfolding counts_from
counts_from-append start [] item v e = ground arith
counts_from-append start (x ∷ xs) item v e = ground (arith, counts_from-append (start + 1) xs item)

counts_from-complete_record :
    (p : ExportCompleted) (start : ℕ) (items : List ExportRecord)
    → counts_from start (map (complete_record p) items) ≡ counts_from start items
unfolding counts_from complete_record
counts_from-complete_record p start [] = refl
counts_from-complete_record p start (x ∷ xs) =
    ground (arith, counts_from-complete_record p (start + 1) xs)

abbrev export_ids : List ExportRecord → List String
export_ids = map (λ (item : ExportRecord). item.export_id)

abbrev intent_ids : List ExportRecord → List String
intent_ids = map (λ (item : ExportRecord). item.intent_id)

export_ids-complete_record :
    (p : ExportCompleted) (items : List ExportRecord)
    → (export_ids (map (complete_record p) items) ≡ export_ids items)
      × (intent_ids (map (complete_record p) items) ≡ intent_ids items)
unfolding complete_record
export_ids-complete_record p [] = (refl, refl)
export_ids-complete_record p (x ∷ xs) = ground (arith, export_ids-complete_record p xs)

unused_ids :
    (export_id intent_id : String) (items : List ExportRecord)
    → any (uses_export_ids export_id intent_id) items ≡ false
    → (has export_id (export_ids items) ≡ false) × (has intent_id (intent_ids items) ≡ false)
unfolding any has uses_export_ids
unused_ids export_id intent_id [] e = (refl, refl)
unused_ids export_id intent_id (x ∷ xs) e = ground (arith, unused_ids export_id intent_id xs)

requested_ids :
    (items : List ExportRecord) (item : ExportRecord)
    → valid_export_ids items ≡ true
    → item.export_sequence ≡ length items + 1
    → any (uses_export_ids item.export_id item.intent_id) items ≡ false
    → valid_export_ids (items ++ item ∷ []) ≡ true
unfolding valid_export_ids
requested_ids items item v s n =
    let u = unused_ids item.export_id item.intent_id items n in
    ground (
      arith,
      counts_from-append 1 items item,
      map-append (λ (item : ExportRecord). item.export_id) items (item ∷ []),
      map-append (λ (item : ExportRecord). item.intent_id) items (item ∷ []),
      is_distinct-append_one item.export_id (export_ids items),
      is_distinct-append_one item.intent_id (intent_ids items),
    )

completed_ids :
    (p : ExportCompleted) (items : List ExportRecord)
    → valid_export_ids items ≡ true
    → valid_export_ids (map (complete_record p) items) ≡ true
unfolding valid_export_ids
completed_ids p items v =
    ground (arith, counts_from-complete_record p 1 items, export_ids-complete_record p items)

completed_valid :
    (p : ExportCompleted) (m : ℕ) (item : ExportRecord)
    → valid_export_completed_shape p ≡ true
    → valid_export_record m item ≡ true
    → valid_export_record m (complete_record p item) ≡ true
unfolding valid_export_completed_shape valid_export_record complete_record has_completion
completed_valid p m item s v = ground arith

module _ ⦃h : Sha256⦄ (state : DialogueState) (event : CommittedDialogueEvent)
    (c : Carried state event.sequence) where
  abbrev with_exports : List ExportRecord → DialogueState
  with_exports exports =
      let next_state = advance state event in record next_state { exports = exports }

  with_exports-Carried :
      (exports : List ExportRecord)
      → exports_allowed state.lifecycle ≡ true
      → all (valid_export_record event.sequence) exports ≡ true
      → valid_export_ids exports ≡ true
      → Carried (with_exports exports) event.sequence
  unfolding advance exports_allowed valid_session_lifecycle valid_new valid_ended valid_phase
      valid_selection valid_clarification_place valid_topic_ids all_topic_ids holds_one_work
      active_work has_open_turn valid_session_work valid_session_kind
  with_exports-Carried exports l v k = ground (arith, c)

module _ ⦃h : Sha256⦄ (state : DialogueState) (event : CommittedDialogueEvent)
    (c : Carried state event.sequence) {next_state : DialogueState} where
  pub export_requested-Carried :
      (p : ExportRequested)
      → state.sequence ≤ event.sequence
      → reduce_export_requested state event p ≡ ok next_state
      → Carried next_state event.sequence
  unfolding reduce_export_requested requested_record advance valid_export_record lacks_completion
      all
  export_requested-Carried p le e =
      let item = requested_record p in
      subst (λ s. Carried s event.sequence) (ground arith)
        (with_exports-Carried state event c (state.exports ++ item ∷ []) (ground arith)
          (ground (
            arith,
            c.exports,
            all-append (valid_export_record event.sequence) state.exports (item ∷ []),
          ))
          (requested_ids state.exports item c.export_ids (ground arith) (ground arith)))

  pub export_completed-Carried :
      (p : ExportCompleted)
      → reduce_export_completed state event p ≡ ok next_state
      → Carried next_state event.sequence
  unfolding reduce_export_completed advance
  export_completed-Carried p e =
      subst (λ s. Carried s event.sequence) (ground arith)
        (with_exports-Carried state event c (map (complete_record p) state.exports) (ground arith)
          (all-map (valid_export_record event.sequence) (valid_export_record event.sequence)
            (complete_record p) state.exports
            (λ item. completed_valid p event.sequence item (ground arith)) c.exports)
          (completed_ids p state.exports c.export_ids))
