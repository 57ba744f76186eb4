-- ===== src/Laws/Registry/Completion.antt =====
-- The end of a handoff in the registry of xsync_v2/registry.py, and every dialogue after any
-- transaction.
use mathlib.Core.Path.{subst}
use x_sync.Prelude.{
  In, List, Option-cases, String-discrete, [], ap, arith, inl, inr, ok, refl, some, sym, true, ℕ,
  ◌∙◌, ◌∷◌, ◌≡◌,
}
use x_sync.Laws.Registry.Current.{dialogue_by_id_lem}
use x_sync.Laws.Registry.Frame.{reduce_registry-Outcome}
use x_sync.Laws.Registry.Moves.{
  StatusStep, Survives, changed, found-replace_dialogue, found_is, replace_dialogue-Survives,
  unchanged,
}
use x_sync.Laws.Registry.Shapes.{Form, valid_transaction_shape-Form}
use x_sync.Laws.Registry.Survival.{
  begin-Survives, create-Survives, create_and_begin-Survives, valid-DistinctDialogues,
}
use x_sync.Registry.Decide.{proof_matches_pending}
use x_sync.Registry.Events.{
  Activated, CommittedRegistryEvent, CommittedRegistryTransaction, Deactivated, dialogue_activated,
  dialogue_deactivated,
}
use x_sync.Registry.Model.{
  DialogueRegistrationStatus, PendingHandoff, RegisteredDialogue, RegistryState,
}
use x_sync.Registry.Reduce.{
  apply_activated, apply_deactivated, apply_event, apply_events, reduce_registry, replace_dialogue,
}
use x_sync.Registry.Transaction.{completes_pending, valid_transaction_shape}
use x_sync.Registry.Valid.{
  dialogue_by_id, is_deactivating, valid_currency, valid_handoff, valid_pending,
  valid_registry_state,
}

-- The two dialogues of a pending handoff.
pending-parties :
    (state : RegistryState) (handoff : PendingHandoff)
    → valid_registry_state state ≡ true
    → state.pending_handoff ≡ some handoff
    → (source : RegisteredDialogue) × (target : RegisteredDialogue) × (dialogue_by_id
          state.dialogues handoff.source_session_id
        ≡ some source)
      × (source.status ≡ DialogueRegistrationStatus.deactivating)
      × (dialogue_by_id state.dialogues handoff.target.session_id ≡ some target)
      × (target.status ≡ DialogueRegistrationStatus.created)
      × ¬ (handoff.source_session_id ≡ handoff.target.session_id)
unfolding valid_registry_state valid_currency valid_handoff valid_pending is_deactivating
pending-parties state handoff v p =
    elim (Option-cases (dialogue_by_id state.dialogues handoff.source_session_id)) [
      | inl n ↦ ground arith
      | inr (source, f) ↦
          elim (Option-cases (dialogue_by_id state.dialogues handoff.target.session_id)) [
            | inl n ↦ ground arith
            | inr (target, g) ↦
                (source, target, f, ground arith, g, ground arith, λ same. ground arith)
          ]
    ]

module _ (state reduced : RegistryState) (last : ℕ) (v : valid_registry_state state ≡ true)
    (item : RegisteredDialogue) (i : In item state.dialogues) where
  -- The source of a handoff has left and its target is open.
  handed_over-Survives :
      (source target left opened : RegisteredDialogue)
      → dialogue_by_id state.dialogues source.session_id ≡ some source
      → dialogue_by_id state.dialogues target.session_id ≡ some target
      → ¬ (source.session_id ≡ target.session_id)
      → left.session_id ≡ source.session_id
      → left.config_digest ≡ source.config_digest
      → StatusStep source.status left.status
      → opened.session_id ≡ target.session_id
      → opened.config_digest ≡ target.config_digest
      → StatusStep target.status opened.status
      → Survives item (replace_dialogue opened (replace_dialogue left state.dialogues))
  handed_over-Survives source target left opened fs ft n ls lc lm os oc om =
      let distinct = valid-DistinctDialogues state v in
      elim (String-discrete item.session_id left.session_id) [
        | yes p ↦
            let same =
              found_is state.dialogues source.session_id source item distinct fs i (p ∙ ls) in
            (
              left,
              unchanged (replace_dialogue left state.dialogues) opened left
                  (changed state.dialogues left item i p) (λ q. n (sym ls ∙ q ∙ os)),
              sym p,
              lc ∙ ap (λ (x : RegisteredDialogue). x.config_digest) (sym same),
              subst (λ (x : RegisteredDialogue). StatusStep x.status left.status) (sym same) lm,
            )
        | no m ↦
            replace_dialogue-Survives (replace_dialogue left state.dialogues) target opened item
              (λ q. found_is state.dialogues target.session_id target item distinct ft i (q ∙ os))
              oc om (unchanged state.dialogues left item i m)
      ]

  complete-Survives :
      (first second : CommittedRegistryEvent) (d : Deactivated) (a : Activated)
      (source target : RegisteredDialogue)
      → first.payload ≡ dialogue_deactivated d
      → second.payload ≡ dialogue_activated a
      → d.proof.source_session_id ≡ source.session_id
      → a.target.session_id ≡ target.session_id
      → ¬ (source.session_id ≡ target.session_id)
      → dialogue_by_id state.dialogues source.session_id ≡ some source
      → source.status ≡ DialogueRegistrationStatus.deactivating
      → dialogue_by_id state.dialogues target.session_id ≡ some target
      → target.status ≡ DialogueRegistrationStatus.created
      → apply_events state (first ∷ second ∷ []) ≡ ok reduced
      → Survives item reduced.dialogues
  unfolding apply_events apply_event apply_activated apply_deactivated
  complete-Survives first second d a source target e f p q n fs ss ft ts r =
      let left : RegisteredDialogue = record source {
        status = DialogueRegistrationStatus.deactivated;
        deactivated_generation = some d.proof.generation;
        deactivation_handoff_id = some d.proof.handoff_id;
      } in
      let opened : RegisteredDialogue = record target {
        status = DialogueRegistrationStatus.active;
        activated_generation = some a.generation;
      } in
      let after = found-replace_dialogue state.dialogues target.session_id target left ft n in
      let m : reduced.dialogues ≡ replace_dialogue opened (replace_dialogue left state.dialogues) =
        ground arith in
      subst (λ items. Survives item items) (sym m)
        (handed_over-Survives source target left opened fs ft n refl refl
          (subst (λ status. StatusStep status DialogueRegistrationStatus.deactivated) (sym ss)
            StatusStep.ends)
          refl refl
          (subst (λ status. StatusStep status DialogueRegistrationStatus.active) (sym ts)
            StatusStep.activates))

  -- The dialogues of a pending handoff, when the events complete it.
  pending-Survives :
      (first second : CommittedRegistryEvent) (d : Deactivated) (a : Activated)
      → first.payload ≡ dialogue_deactivated d
      → second.payload ≡ dialogue_activated a
      → valid_transaction_shape state last (dialogue_deactivated d ∷ dialogue_activated a ∷ [])
        ≡ true
      → apply_events state (first ∷ second ∷ []) ≡ ok reduced
      → Survives item reduced.dialogues
  unfolding valid_transaction_shape completes_pending proof_matches_pending
  pending-Survives first second d a e f t r = elim (Option-cases state.pending_handoff) [
    | inl n ↦ ground arith
    | inr (handoff, p) ↦
        let (source, target, fs, ss, ft, ts, n) = pending-parties state handoff v p in
        let id_s = dialogue_by_id_lem state.dialogues handoff.source_session_id source fs in
        let id_t = dialogue_by_id_lem state.dialogues handoff.target.session_id target ft in
        complete-Survives first second d a source target e f (ground arith) (ground arith)
          (λ same. ground arith) (ground arith) ss (ground arith) ts r
  ]

Form-Survives :
    (state reduced : RegistryState) (last : ℕ)
    → valid_registry_state state ≡ true
    → (item : RegisteredDialogue) → In item state.dialogues
    → (first : CommittedRegistryEvent) (rest : List CommittedRegistryEvent)
    → Form state last first rest
    → apply_events state (first ∷ rest) ≡ ok reduced
    → Survives item reduced.dialogues
Form-Survives state reduced last v item i _ _ (Form.create first second c a e f t) r =
    create-Survives state reduced last v item i first second c a e f t r
Form-Survives state reduced last v item i _ _ (Form.create_and_begin first second c s e f t) r =
    create_and_begin-Survives state reduced last v item i first second c s e f t r
Form-Survives state reduced last v item i _ _ (Form.begin first s e t) r =
    begin-Survives state reduced last v item i first s e t r
Form-Survives state reduced last v item i _ _ (Form.complete first second d a e f t) r =
    pending-Survives state reduced last v item i first second d a e f t r

-- No transaction of the registry loses a dialogue: each one is still registered with its
-- configuration, and its status has stayed or gone one step from created over active and
-- deactivating to deactivated. So a dialogue that was deactivated is never active again.
pub reduce_registry_dialogues :
    (state next_state : RegistryState) (transaction : CommittedRegistryTransaction)
    (item : RegisteredDialogue)
    → reduce_registry state transaction ≡ ok next_state
    → In item state.dialogues
    → Survives item next_state.dialogues
reduce_registry_dialogues state next_state transaction item r i =
    let (first, rest, p, outcome) = reduce_registry-Outcome state next_state transaction r in
    elim outcome [
      | inl (w, same) ↦ (item, rw same i, refl, refl, StatusStep.stays item.status)
      | inr x ↦
          subst (λ (s : RegistryState). Survives item s.dialogues) (sym x.next_eq)
            (Form-Survives state x.reduced _ p.state_valid item i first rest
              (valid_transaction_shape-Form state _ first rest x.shaped) x.applied)
    ]
