-- ===== src/Laws/Registry/Moves.antt =====
-- The dialogues of the registry of xsync_v2/registry.py: none is lost, and each goes its way from
-- created over active and deactivating to deactivated.
use mathlib.Core.Path.{subst}
use x_sync.Prelude.{
  In, In-has, In-map, List, String, String-discrete, String-eq, [], ap, arith, inl, inr,
  is_distinct, map, none, refl, some, sym, true, ◌++◌, ◌∙◌, ◌∷◌, ◌≡◌,
}
use x_sync.Registry.Model.{DialogueRegistrationStatus, RegisteredDialogue}
use x_sync.Registry.Reduce.{replace_dialogue}
use x_sync.Registry.Valid.{dialogue_by_id}

-- The steps of a dialogue, staying included.
pub data StatusStep : DialogueRegistrationStatus → DialogueRegistrationStatus → Type 0 where
  stays : (status : DialogueRegistrationStatus) → StatusStep status status
  activates : StatusStep DialogueRegistrationStatus.created DialogueRegistrationStatus.active
  starts : StatusStep DialogueRegistrationStatus.active DialogueRegistrationStatus.deactivating
  ends : StatusStep DialogueRegistrationStatus.deactivating DialogueRegistrationStatus.deactivated

-- A dialogue is still registered, with its configuration, at most one step further.
abbrev pub Survives : RegisteredDialogue → List RegisteredDialogue → Type 0
Survives item items =
    (later : RegisteredDialogue) × In later items
    × (later.session_id ≡ item.session_id)
    × (later.config_digest ≡ item.config_digest)
    × StatusStep item.status later.status

pub found_is :
    (items : List RegisteredDialogue) (session_id : String) (found item : RegisteredDialogue)
    → is_distinct (map (λ (x : RegisteredDialogue). x.session_id) items) ≡ true
    → dialogue_by_id items session_id ≡ some found
    → In item items
    → item.session_id ≡ session_id
    → item ≡ found
unfolding is_distinct dialogue_by_id
found_is [] session_id found item d e i s = absurd i
found_is (x ∷ items) session_id found item d e (inl q) s =
    let t = ap (λ (y : RegisteredDialogue). y.session_id) q in ground arith
found_is (x ∷ items) session_id found item d e (inr i) s =
    let m =
      In-has item.session_id (map (λ (y : RegisteredDialogue). y.session_id) items)
        (In-map (λ (y : RegisteredDialogue). y.session_id) item items i) in
    elim (String-discrete x.session_id session_id) [
      | yes p ↦ ground arith
      | no n ↦ found_is items session_id found item (ground arith) (ground arith) i s
    ]

pub none_is :
    (items : List RegisteredDialogue) (session_id : String) (item : RegisteredDialogue)
    → dialogue_by_id items session_id ≡ none
    → In item items
    → ¬ (item.session_id ≡ session_id)
unfolding dialogue_by_id
none_is [] session_id item e i s = absurd i
none_is (x ∷ items) session_id item e (inl q) s =
    let t = ap (λ (y : RegisteredDialogue). y.session_id) q in ground arith
none_is (x ∷ items) session_id item e (inr i) s = ground (arith, none_is items session_id item)

-- A dialogue found before another one is registered is found after it.
pub found-append :
    (items : List RegisteredDialogue) (session_id : String) (found other : RegisteredDialogue)
    → dialogue_by_id items session_id ≡ some found
    → dialogue_by_id (items ++ other ∷ []) session_id ≡ some found
unfolding dialogue_by_id
found-append [] session_id found other e = ground arith
found-append (x ∷ items) session_id found other e =
    ground (arith, found-append items session_id found other)

-- A dialogue that is found is found when another one has been replaced.
pub found-replace_dialogue :
    (items : List RegisteredDialogue) (session_id : String) (found updated : RegisteredDialogue)
    → dialogue_by_id items session_id ≡ some found
    → ¬ (updated.session_id ≡ session_id)
    → dialogue_by_id (replace_dialogue updated items) session_id ≡ some found
unfolding dialogue_by_id replace_dialogue
found-replace_dialogue [] session_id found updated e n = ground arith
found-replace_dialogue (x ∷ items) session_id found updated e n =
    ground (arith, found-replace_dialogue items session_id found updated)

pub unchanged :
    (items : List RegisteredDialogue) (updated item : RegisteredDialogue)
    → In item items
    → ¬ (item.session_id ≡ updated.session_id)
    → In item (replace_dialogue updated items)
unfolding replace_dialogue
unchanged [] updated item i n = absurd i
unchanged (x ∷ items) updated item (inl q) n =
    let t = ap (λ (y : RegisteredDialogue). y.session_id) q in inl (ground arith)
unchanged (x ∷ items) updated item (inr i) n = inr (unchanged items updated item i n)

pub changed :
    (items : List RegisteredDialogue) (updated item : RegisteredDialogue)
    → In item items
    → item.session_id ≡ updated.session_id
    → In updated (replace_dialogue updated items)
unfolding replace_dialogue
changed [] updated item i s = absurd i
changed (x ∷ items) updated item (inl q) s =
    let t = ap (λ (y : RegisteredDialogue). y.session_id) q in inl (ground arith)
changed (x ∷ items) updated item (inr i) s = inr (changed items updated item i s)

-- Replacing the dialogue found under an id by its next step.
pub replace_dialogue-Survives :
    (items : List RegisteredDialogue) (found updated item : RegisteredDialogue)
    → (item.session_id ≡ updated.session_id → item ≡ found)
    → updated.config_digest ≡ found.config_digest
    → StatusStep found.status updated.status
    → In item items
    → Survives item (replace_dialogue updated items)
replace_dialogue-Survives items found updated item k c m i =
    elim (String-discrete item.session_id updated.session_id) [
      | yes p ↦ (
        updated,
        changed items updated item i p,
        sym p,
        c ∙ ap (λ (x : RegisteredDialogue). x.config_digest) (sym (k p)),
        subst (λ (x : RegisteredDialogue). StatusStep x.status updated.status) (sym (k p)) m,
      )
      | no n ↦ (item, unchanged items updated item i n, refl, refl, stays item.status)
    ]
