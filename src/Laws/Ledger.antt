-- ===== src/Laws/Ledger.antt =====
-- The records that a Session keeps: its exports and its completed Topic Runs.
use mathlib.Core.Path.{subst}
use mathlib.Core.List.{append-nil, map-append}
use x_sync.Prelude.{
  Bool-cases, In, In-append, In-keep, In-map, List, Option-cases, String, String-eq, [], arith,
  false, inl, inr, map, ok, refl, some, sym, true, when, ℕ, ◌++◌, ◌==◌, ◌∙◌, ◌∷◌, ◌≡◌, ◌⊎◌,
}
use x_sync.Domain.{
  CommittedDialogueEvent, DialogueEventPayload, DialogueState, ExportCompleted, ExportRecord,
  ExportStatus, TopicRunState, TopicSummary, export_completed, export_requested, session_started,
  topic_completed,
}
use x_sync.Decide.Export.{matching_exports, single}
use x_sync.Decide.Guards.{completion_guard, same_evidence}
use x_sync.Identity.{Sha256}
use x_sync.Laws.Frame.{reduce-Reduced}
use x_sync.Reduce.Export.{complete_record, is_completable, requested_record}
use x_sync.Reduce.Pause.{completed_run}
use x_sync.Reduce.Step.{reduce, transition}
use x_sync.Rules.{is_publishable}

-- What never changes of an export.
abbrev pub identity : ExportRecord → String × ℕ × String
identity item = (item.export_id, item.export_sequence, item.intent_id)

identity-complete_record :
    (p : ExportCompleted) (item : ExportRecord) → identity (complete_record p item) ≡ identity item
unfolding complete_record
identity-complete_record p item = ground arith

map-identity :
    (p : ExportCompleted) (items : List ExportRecord)
    → map identity (map (complete_record p) items) ≡ map identity items
map-identity p [] = refl
map-identity p (item ∷ items) = cc (identity-complete_record p item, map-identity p items)

-- The second list begins with the first.
abbrev pub Extends {ℓ} : {A : Type ℓ} → List A → List A → Type ℓ
Extends {A} xs ys = (added : List A) × (ys ≡ xs ++ added)

Extends-refl {ℓ} : {A : Type ℓ} (xs : List A) → Extends xs xs
Extends-refl xs = ([], sym (append-nil xs))

Extends-of_eq {ℓ} : {A : Type ℓ} (xs ys : List A) → ys ≡ xs → Extends xs ys
Extends-of_eq xs ys e = ([], e ∙ sym (append-nil xs))

module _ ⦃h : Sha256⦄ where
  transition-completed :
      (state : DialogueState) (event : CommittedDialogueEvent) (p : DialogueEventPayload)
      {next_state : DialogueState}
      → transition state event p ≡ ok next_state
      → (next_state.completed_topics ≡ state.completed_topics)
        ⊎ ((topic : TopicRunState) × (summary : TopicSummary) × (state.active_topic ≡ some topic)
            × (completion_guard topic summary ≡ true)
            × (is_publishable topic.evidence_health ≡ true)
            × (next_state.completed_topics
                ≡ state.completed_topics ++ completed_run topic summary ∷ []))
  unfolding transition same_evidence
  transition-completed state event (topic_completed p) e = elim (Option-cases state.active_topic) [
    | inl missing ↦ ground arith
    | inr (topic, active) ↦
        inr (topic, p.summary, ground arith, ground arith, ground arith, ground arith)
  ]
  transition-completed state event (session_started p) e = inl (ground arith)
  transition-completed state event p e = inl (ground arith)

  -- The completed Runs of a Session are only added to, and a Run is added only from the active one,
  -- on publishable evidence, when every gate is supported, a business-technical mapping is confirmed
  -- and the summary cites confirmed entries only.
  pub reduce_completed_topics :
      (state : DialogueState) (event : CommittedDialogueEvent) {next_state : DialogueState}
      → reduce state event ≡ ok next_state
      → (next_state.completed_topics ≡ state.completed_topics)
        ⊎ ((topic : TopicRunState) × (summary : TopicSummary) × (state.active_topic ≡ some topic)
            × (completion_guard topic summary ≡ true)
            × (is_publishable topic.evidence_health ≡ true)
            × (next_state.completed_topics
                ≡ state.completed_topics ++ completed_run topic summary ∷ []))
  reduce_completed_topics state event e =
      transition-completed state event event.payload (reduce-Reduced state event e).moved

  transition-exports :
      (state : DialogueState) (event : CommittedDialogueEvent) (p : DialogueEventPayload)
      {next_state : DialogueState}
      → transition state event p ≡ ok next_state
      → Extends (map identity state.exports) (map identity next_state.exports)
  unfolding transition
  transition-exports state event (export_requested p) e = (
    identity (requested_record p) ∷ [],
    ground (arith, map-append identity state.exports (requested_record p ∷ [])),
  )
  transition-exports state event (export_completed p) e =
      Extends-of_eq _ _ (ground (arith, map-identity p state.exports))
  transition-exports state event (session_started p) e = Extends-of_eq _ _ (ground arith)
  transition-exports state event p e = Extends-of_eq _ _ (ground arith)

  -- No event removes, renumbers or renames an export: the ids, sequence numbers and intents of the
  -- exports before it stand, in their order, in front of those after it.
  pub reduce_exports :
      (state : DialogueState) (event : CommittedDialogueEvent) {next_state : DialogueState}
      → reduce state event ≡ ok next_state
      → Extends (map identity state.exports) (map identity next_state.exports)
  reduce_exports state event e =
      transition-exports state event event.payload (reduce-Reduced state event e).moved

In-single : {A : Type 0} (x y : A) (xs : List A) → In x xs → single xs ≡ some y → x ≡ y
unfolding single
In-single x y [] h e = absurd h
In-single x y (z ∷ []) (inl p) e = ground (arith, p)
In-single x y (z ∷ []) (inr h) e = absurd h
In-single x y (z ∷ w ∷ xs) h e = ground arith

-- The only export of its id is requested, so a completed one has another id.
complete_record_kept :
    (p : ExportCompleted) (items : List ExportRecord) (item : ExportRecord)
    → when false (is_completable p) (single (matching_exports p.export_id items)) ≡ true
    → In item items
    → item.status ≡ ExportStatus.completed
    → complete_record p item ≡ item
unfolding complete_record matching_exports is_completable
complete_record_kept p items item t i c =
    elim (Option-cases (single (matching_exports p.export_id items))) [
      | inl missing ↦ ground arith
      | inr (found, e) ↦ elim (Bool-cases (item.export_id == p.export_id)) [
        | inl same ↦ absurd (clash found (In-single item found _ (In-keep _ item items i same) e) e)
        | inr other ↦ ground arith
      ]
    ]
  where
    clash :
        (found : ExportRecord)
        → item ≡ found
        → single (matching_exports p.export_id items) ≡ some found
        → ⊥
    clash found q e = ground arith

module _ ⦃h : Sha256⦄ where
  transition-kept :
      (state : DialogueState) (event : CommittedDialogueEvent) (p : DialogueEventPayload)
      {next_state : DialogueState}
      → transition state event p ≡ ok next_state
      → (item : ExportRecord) → In item state.exports
      → item.status ≡ ExportStatus.completed
      → In item next_state.exports
  unfolding transition
  transition-kept state event (export_requested p) e item i c =
      subst (In item) (ground arith) (In-append item state.exports (requested_record p ∷ []) i)
  transition-kept state event (export_completed p) e item i c = subst (In item) (ground arith) (
      subst (λ x. In x (map (complete_record p) state.exports))
        (complete_record_kept p state.exports item (ground arith) i c)
        (In-map (complete_record p) item state.exports i))
  transition-kept state event (session_started p) e item i c = subst (In item) (ground arith) i
  transition-kept state event p e item i c = subst (In item) (ground arith) i

  -- A completed export is never changed: whatever event follows, its whole record stays.
  pub reduce-completed_export :
      (state : DialogueState) (event : CommittedDialogueEvent) (item : ExportRecord)
      {next_state : DialogueState}
      → reduce state event ≡ ok next_state
      → In item state.exports
      → item.status ≡ ExportStatus.completed
      → In item next_state.exports
  reduce-completed_export state event item e i c =
      transition-kept state event event.payload (reduce-Reduced state event e).moved item i c
