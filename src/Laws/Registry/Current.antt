-- ===== src/Laws/Registry/Current.antt =====
-- The current dialogue of the registry of xsync_v2/registry.py: which dialogues can be live.
use mathlib.Core.Path.{subst}
use x_sync.Prelude.{
  ==→eq, Bool, Bool-cases, In, In-keep, List, List-cases, List-eq, Option-cases, String, [], arith,
  inl, inr, is_empty, keep, none, ok, some, true, ◌==◌, ◌||◌, ◌∷◌, ◌≡◌,
}
use x_sync.Laws.Registry.Counters.{reduce_registry_counters}
use x_sync.Registry.Events.{CommittedRegistryTransaction}
use x_sync.Registry.Model.{PendingHandoff, RegisteredDialogue, RegisteredDialogue-eq, RegistryState}
use x_sync.Registry.Reduce.{reduce_registry}
use x_sync.Registry.Valid.{
  dialogue_by_id, is_active, is_deactivating, valid_currency, valid_handoff, valid_registry_state,
  valid_settled,
}

-- A dialogue that is active, or that a handoff is deactivating.
abbrev pub is_live : RegisteredDialogue → Bool
is_live item = is_active item || is_deactivating item

pub dialogue_by_id_lem :
    (items : List RegisteredDialogue) (session_id : String) (item : RegisteredDialogue)
    → dialogue_by_id items session_id ≡ some item
    → item.session_id ≡ session_id
unfolding dialogue_by_id
dialogue_by_id_lem [] session_id item e = ground arith
dialogue_by_id_lem (x ∷ items) session_id item e =
    ground (arith, dialogue_by_id_lem items session_id item)

-- The only element of a list that a test keeps.
only :
    (p : RegisteredDialogue → Bool) (item kept : RegisteredDialogue)
    (items : List RegisteredDialogue)
    → (keep p items == (kept ∷ [])) ≡ true
    → In item items
    → p item ≡ true
    → item ≡ kept
only p item kept items k i t =
    elim (subst (λ xs. In item xs) (==→eq (keep p items) (kept ∷ []) k)
      (In-keep p item items i t)) [ inl e ↦ e | inr n ↦ absurd n ]

kept_none :
    (p : RegisteredDialogue → Bool) (item : RegisteredDialogue) (items : List RegisteredDialogue)
    → is_empty (keep p items) ≡ true
    → In item items
    → ¬ (p item ≡ true)
kept_none p item items k i t = elim (List-cases (keep p items)) [
  | inl e ↦ subst (λ xs. In item xs) e (In-keep p item items i t)
  | inr (x, xs, e) ↦ ground arith
]

-- The dialogue that the registry finds under its current id.
Current : RegistryState → RegisteredDialogue → Type 0
Current state item =
    (session_id : String) × (state.current_session_id ≡ some session_id)
    × (dialogue_by_id state.dialogues session_id ≡ some item)

module _ (state : RegistryState) (v : valid_registry_state state ≡ true) (item : RegisteredDialogue)
    (i : In item state.dialogues) where
  settled_found :
      (session_id : String)
      → state.pending_handoff ≡ none
      → is_active item ≡ true
      → state.current_session_id ≡ some session_id
      → dialogue_by_id state.dialogues session_id ≡ some item
  unfolding valid_registry_state valid_currency valid_settled
  settled_found session_id n live c =
      elim (Option-cases (dialogue_by_id state.dialogues session_id)) [
        | inl f ↦ ground arith
        | inr (found, f) ↦
            let e = only is_active item found state.dialogues (ground arith) i live in ground arith
      ]

  settled-Current : state.pending_handoff ≡ none → is_live item ≡ true → Current state item
  unfolding valid_registry_state valid_currency valid_settled Current
  settled-Current n live =
      let active : is_active item ≡ true = elim (Bool-cases (is_deactivating item)) [
        | inl t ↦ absurd (kept_none is_deactivating item state.dialogues (ground arith) i t)
        | inr f ↦ ground arith
      ] in
      elim (Option-cases state.current_session_id) [
        | inl c ↦ absurd (kept_none is_active item state.dialogues (ground arith) i active)
        | inr (session_id, c) ↦ (session_id, c, settled_found session_id n active c)
      ]

  handoff-Current :
      (handoff : PendingHandoff)
      → state.pending_handoff ≡ some handoff
      → is_live item ≡ true
      → Current state item
  unfolding valid_registry_state valid_currency valid_handoff Current
  handoff-Current handoff n live =
      let leaving : is_deactivating item ≡ true = elim (Bool-cases (is_active item)) [
        | inl t ↦ absurd (kept_none is_active item state.dialogues (ground arith) i t)
        | inr f ↦ ground arith
      ] in
      elim (Option-cases (dialogue_by_id state.dialogues handoff.source_session_id)) [
        | inl f ↦ ground arith
        | inr (found, f) ↦
            let e = only is_deactivating item found state.dialogues (ground arith) i leaving in
            (handoff.source_session_id, ground arith, ground arith)
      ]

  live-Current : is_live item ≡ true → Current state item
  live-Current live = elim (Option-cases state.pending_handoff) [
    | inl n ↦ settled-Current n live
    | inr (handoff, n) ↦ handoff-Current handoff n live
  ]

-- After a transaction of the registry at most one dialogue is active or deactivating, and it has the
-- current id.
pub reduce_registry_current :
    (state next_state : RegistryState) (transaction : CommittedRegistryTransaction)
    (a b : RegisteredDialogue)
    → reduce_registry state transaction ≡ ok next_state
    → In a next_state.dialogues
    → In b next_state.dialogues
    → is_live a ≡ true
    → is_live b ≡ true
    → (a ≡ b) × (next_state.current_session_id ≡ some a.session_id)
unfolding Current
reduce_registry_current state next_state transaction a b r i j live_a live_b =
    let v = (reduce_registry_counters state next_state transaction r).0 in
    let (id_a, c, found) = live-Current next_state v a i live_a in
    let (id_b, d, found_b) = live-Current next_state v b j live_b in
    let e = dialogue_by_id_lem next_state.dialogues id_a a found in (ground arith, ground arith)
