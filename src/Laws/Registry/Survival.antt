-- ===== src/Laws/Registry/Survival.antt =====
-- The dialogues of the registry after a transaction of xsync_v2/registry.py, form by form.
use mathlib.Core.Path.{subst}
use x_sync.Prelude.{
  In, In-append, List, Option-cases, String-eq, [], arith, inl, inr, is_distinct, map, none, ok,
  refl, some, sym, true, ℕ, ◌++◌, ◌∙◌, ◌∷◌, ◌≡◌,
}
use x_sync.Laws.Registry.Current.{dialogue_by_id_lem}
use x_sync.Laws.Registry.Moves.{
  StatusStep, Survives, found-append, found_is, none_is, replace_dialogue-Survives, unchanged,
}
use x_sync.Registry.Events.{
  Activated, CommittedRegistryEvent, DeactivationStarted, DialogueCreated, deactivation_started,
  dialogue_activated, dialogue_created,
}
use x_sync.Registry.Model.{
  DialogueRegistrationStatus, PendingHandoff, RegisteredDialogue, RegistryState,
}
use x_sync.Registry.Reduce.{
  apply_activated, apply_event, apply_events, apply_started, registered, replace_dialogue,
}
use x_sync.Registry.Transaction.{begin_context, valid_transaction_shape}
use x_sync.Registry.Valid.{dialogue_by_id, is_active, valid_registry_state}

abbrev pub DistinctDialogues : RegistryState → Type 0
DistinctDialogues state =
    is_distinct (map (λ (x : RegisteredDialogue). x.session_id) state.dialogues) ≡ true

pub valid-DistinctDialogues :
    (state : RegistryState) → valid_registry_state state ≡ true → DistinctDialogues state
unfolding valid_registry_state
valid-DistinctDialogues state v = ground arith

begin-source :
    (state : RegistryState) (handoff : PendingHandoff)
    → begin_context state handoff ≡ true
    → (source : RegisteredDialogue) × (dialogue_by_id state.dialogues handoff.source_session_id
        ≡ some source)
      × (source.status ≡ DialogueRegistrationStatus.active)
unfolding begin_context is_active
begin-source state handoff b =
    elim (Option-cases (dialogue_by_id state.dialogues handoff.source_session_id)) [
      | inl n ↦ ground arith
      | inr (source, f) ↦ (source, f, ground arith)
    ]

module _ (state reduced : RegistryState) (last : ℕ) (v : valid_registry_state state ≡ true)
    (item : RegisteredDialogue) (i : In item state.dialogues) where
  -- The source of a handoff starts to leave; the dialogues are the old ones and perhaps a new one.
  started-Survives :
      (handoff : PendingHandoff) (source : RegisteredDialogue) (items : List RegisteredDialogue)
      → dialogue_by_id state.dialogues handoff.source_session_id ≡ some source
      → source.status ≡ DialogueRegistrationStatus.active
      → In item items
      → Survives item (
          replace_dialogue
            (record source { status = DialogueRegistrationStatus.deactivating })
            items)
  started-Survives handoff source items found active j =
      let id = dialogue_by_id_lem state.dialogues handoff.source_session_id source found in
      replace_dialogue-Survives items source
        (record source { status = DialogueRegistrationStatus.deactivating }) item
        (λ same.
          found_is state.dialogues handoff.source_session_id source item
            (valid-DistinctDialogues state v) found i (same ∙ id))
        refl
        (subst (λ status. StatusStep status DialogueRegistrationStatus.deactivating) (sym active)
          StatusStep.starts)
        j

  pub begin-Survives :
      (first : CommittedRegistryEvent) (s : DeactivationStarted)
      → first.payload ≡ deactivation_started s
      → valid_transaction_shape state last (deactivation_started s ∷ []) ≡ true
      → apply_events state (first ∷ []) ≡ ok reduced
      → Survives item reduced.dialogues
  unfolding valid_transaction_shape apply_events apply_event apply_started
  begin-Survives first s e t r =
      let (source, found, active) = begin-source state s.handoff (ground arith) in
      let updated : RegisteredDialogue = record source {
        status = DialogueRegistrationStatus.deactivating;
      } in
      let d : reduced.dialogues ≡ replace_dialogue updated state.dialogues = ground arith in
      subst (λ items. Survives item items) (sym d)
        (started-Survives s.handoff source state.dialogues found active i)

  pub create_and_begin-Survives :
      (first second : CommittedRegistryEvent) (c : DialogueCreated) (s : DeactivationStarted)
      → first.payload ≡ dialogue_created c
      → second.payload ≡ deactivation_started s
      → valid_transaction_shape state last (dialogue_created c ∷ deactivation_started s ∷ []) ≡ true
      → apply_events state (first ∷ second ∷ []) ≡ ok reduced
      → Survives item reduced.dialogues
  unfolding valid_transaction_shape apply_events apply_event apply_started
  create_and_begin-Survives first second c s e f t r =
      let (source, found, active) = begin-source state s.handoff (ground arith) in
      let updated : RegisteredDialogue = record source {
        status = DialogueRegistrationStatus.deactivating;
      } in
      let new = registered c.target first.registry_sequence in
      let after = found-append state.dialogues s.handoff.source_session_id source new found in
      let d : reduced.dialogues ≡ replace_dialogue updated (state.dialogues ++ new ∷ []) =
        ground arith in
      subst (λ items. Survives item items) (sym d)
        (started-Survives s.handoff source (state.dialogues ++ new ∷ []) found active
          (In-append item state.dialogues (new ∷ []) i))

  pub create-Survives :
      (first second : CommittedRegistryEvent) (c : DialogueCreated) (a : Activated)
      → first.payload ≡ dialogue_created c
      → second.payload ≡ dialogue_activated a
      → valid_transaction_shape state last (dialogue_created c ∷ dialogue_activated a ∷ []) ≡ true
      → apply_events state (first ∷ second ∷ []) ≡ ok reduced
      → Survives item reduced.dialogues
  unfolding valid_transaction_shape apply_events apply_event apply_activated
  create-Survives first second c a e f t r =
      let new = registered c.target first.registry_sequence in
      let unknown : dialogue_by_id state.dialogues c.target.session_id ≡ none = ground arith in
      elim (Option-cases (dialogue_by_id (state.dialogues ++ new ∷ []) a.target.session_id)) [
        | inl n ↦ ground arith
        | inr (target, found) ↦
            let id =
              dialogue_by_id_lem (state.dialogues ++ new ∷ []) a.target.session_id target found in
            let d : reduced.dialogues
                ≡ replace_dialogue
                    (record target {
                      status = DialogueRegistrationStatus.active;
                      activated_generation = some a.generation;
                    })
                    (state.dialogues ++ new ∷ []) =
              ground arith in
            let other = none_is state.dialogues c.target.session_id item unknown i in
            subst (λ items. Survives item items) (sym d)
              (
                item,
                unchanged (state.dialogues ++ new ∷ []) _ item
                    (In-append item state.dialogues (new ∷ []) i) (λ same. ground arith),
                refl,
                refl,
                StatusStep.stays item.status,
              )
      ]
