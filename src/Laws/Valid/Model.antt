-- ===== src/Laws/Valid/Model.antt =====
-- The learner model under an agent turn: ids stay distinct, and every entry stays valid.
use mathlib.Core.List.{map-append}
use x_sync.Prelude.{
  Bool, Bool-cases, In, In-has, In-keep, List, Option-cases, String, String-eq, [], all, all-append,
  all-keep, all-map, ap, arith, count, count-append, count-distinct, count-has, distinct-count,
  false, has, has-In, has-append, inl, inr, is_distinct, keep, map, none, not, refl, some, true,
  ◌++◌, ◌∙◌, ◌∷◌, ◌≡◌, ◌≤◌,
}
use x_sync.Domain.{LearnerModelEntry, LearnerModelEntry-eq}
use x_sync.Validate.Model.{apply_model_updates, by_id, entry_ids, replaced_by}

-- The ids of the entries that an update list adds or replaces.
by_id-id :
    (entries : List LearnerModelEntry) (entry_id : String) {entry : LearnerModelEntry}
    → by_id entries entry_id ≡ some entry
    → entry.entry_id ≡ entry_id
unfolding by_id
by_id-id [] entry_id e = ground arith
by_id-id (x ∷ xs) entry_id {entry} e = ground (arith, by_id-id xs entry_id {entry = entry})

by_id-all :
    (p : LearnerModelEntry → Bool) (entries : List LearnerModelEntry) (entry_id : String)
    {entry : LearnerModelEntry}
    → all p entries ≡ true
    → by_id entries entry_id ≡ some entry
    → p entry ≡ true
unfolding by_id all
by_id-all p [] entry_id h e = ground arith
by_id-all p (x ∷ xs) entry_id {entry} h e = ground (arith, by_id-all p xs entry_id {entry = entry})

replaced_by-id :
    (updates : List LearnerModelEntry) (entry : LearnerModelEntry)
    → (replaced_by updates entry).entry_id ≡ entry.entry_id
unfolding replaced_by
replaced_by-id updates entry = elim (Option-cases (by_id updates entry.entry_id)) [
  | inl missing ↦ ground arith
  | inr (found, e) ↦ ground (arith, by_id-id updates entry.entry_id e)
]

pub entry_ids-replaced :
    (updates current : List LearnerModelEntry)
    → entry_ids (map (replaced_by updates) current) ≡ entry_ids current
entry_ids-replaced updates [] = refl
entry_ids-replaced updates (x ∷ xs) = cc (replaced_by-id updates x, entry_ids-replaced updates xs)

-- The updates that are new.
abbrev pub added_entries : List LearnerModelEntry → List LearnerModelEntry → List LearnerModelEntry
added_entries current updates =
    keep (λ (entry : LearnerModelEntry). not (has entry.entry_id (entry_ids current))) updates

-- The ids of the model after an agent turn: those before it, in their order, then those of the new
-- entries.
pub entry_ids-apply_model_updates :
    (current updates : List LearnerModelEntry)
    → entry_ids (apply_model_updates current updates)
      ≡ entry_ids current ++ entry_ids (added_entries current updates)
unfolding apply_model_updates
entry_ids-apply_model_updates current updates =
    map-append _ (map (replaced_by updates) current) (added_entries current updates)
    ∙ ap (λ ids. ids ++ entry_ids (added_entries current updates))
        (entry_ids-replaced updates current)

count-added :
    (x : String) (current updates : List LearnerModelEntry)
    → count x (entry_ids (added_entries current updates)) ≤ count x (entry_ids updates)
unfolding keep
count-added x current [] = omega arith
count-added x current (y ∷ ys) = ground (arith, count-added x current ys)

count-added_old :
    (x : String) (current updates : List LearnerModelEntry)
    → has x (entry_ids current) ≡ true
    → count x (entry_ids (added_entries current updates)) ≡ 0
unfolding keep
count-added_old x current [] h = refl
count-added_old x current (y ∷ ys) h = ground (arith, count-added_old x current ys)

-- An agent turn keeps the ids of the learner model distinct, if those of the updates are distinct.
pub is_distinct-apply_model_updates :
    (current updates : List LearnerModelEntry)
    → is_distinct (entry_ids current) ≡ true
    → is_distinct (entry_ids updates) ≡ true
    → is_distinct (entry_ids (apply_model_updates current updates)) ≡ true
is_distinct-apply_model_updates current updates dc du =
    rw (entry_ids-apply_model_updates current updates) (count-distinct _ bound)
  where
    bound :
        (x : String) → count x (entry_ids current ++ entry_ids (added_entries current updates)) ≤ 1
    bound x =
        rw (count-append x (entry_ids current) (entry_ids (added_entries current updates)))
          (elim (Bool-cases (has x (entry_ids current))) [
            | inl old ↦ omega (
              arith,
              count-added_old x current updates old,
              distinct-count x (entry_ids current) dc,
            )
            | inr new ↦ omega (
              arith,
              count-has x (entry_ids current) new,
              count-added x current updates,
              distinct-count x (entry_ids updates) du,
            )
          ])

-- A test that holds of the model and of the updates holds of the model after them.
pub all-apply_model_updates :
    (p : LearnerModelEntry → Bool) (current updates : List LearnerModelEntry)
    → all p current ≡ true
    → all p updates ≡ true
    → all p (apply_model_updates current updates) ≡ true
unfolding apply_model_updates
all-apply_model_updates p current updates hc hu = ground (
  arith,
  all-append p (map (replaced_by updates) current) (added_entries current updates),
  all-map p p (replaced_by updates) current kept hc,
  all-keep p (λ (entry : LearnerModelEntry). not (has entry.entry_id (entry_ids current))) updates
      hu,
)
  where
    kept : (x : LearnerModelEntry) → p x ≡ true → p (replaced_by updates x) ≡ true
    kept x hx = elim (Option-cases (by_id updates x.entry_id)) [
      | inl missing ↦ unfold replaced_by in ground arith
      | inr (found, e) ↦ unfold replaced_by in ground (arith, by_id-all p updates x.entry_id hu e)
    ]

by_id-none :
    (entries : List LearnerModelEntry) (entry_id : String)
    → has entry_id (entry_ids entries) ≡ false
    → by_id entries entry_id ≡ none
unfolding by_id has
by_id-none [] entry_id h = refl
by_id-none (y ∷ ys) entry_id h = ground (arith, by_id-none ys entry_id)

-- The update of an id is in the list, and is found under its own id.
by_id_self :
    (updates : List LearnerModelEntry) (update : LearnerModelEntry)
    → is_distinct (entry_ids updates) ≡ true
    → In update updates
    → by_id updates update.entry_id ≡ some update
unfolding by_id is_distinct
by_id_self [] update d i = absurd i
by_id_self (x ∷ xs) update d (inl e) = ground (arith, e, by_id-none xs update.entry_id)
by_id_self (x ∷ xs) update d (inr i) = ground (arith, by_id_self xs update)

-- Every update of an agent turn is in the learner model after it, if the ids of the updates are
-- distinct.
pub has-apply_model_updates :
    (current updates : List LearnerModelEntry) (update : LearnerModelEntry)
    → is_distinct (entry_ids updates) ≡ true
    → In update updates
    → has update (apply_model_updates current updates) ≡ true
unfolding apply_model_updates
has-apply_model_updates current updates update d i =
    rw (has-append update (map (replaced_by updates) current) (added_entries current updates))
      (elim (Bool-cases (has update.entry_id (entry_ids current))) [
        | inl old ↦ ground (arith, In-has update _ (replaced current (has-In _ _ old)))
        | inr new ↦ ground (
          arith,
          In-has update _ (
              In-keep (λ (entry : LearnerModelEntry). not (has entry.entry_id (entry_ids current)))
                update updates i (ground arith)),
        )
      ])
  where
    replaced :
        (entries : List LearnerModelEntry)
        → In update.entry_id (entry_ids entries)
        → In update (map (replaced_by updates) entries)
    replaced [] j = absurd j
    replaced (x ∷ xs) (inl e) =
        inl (unfold replaced_by in ground (arith, e, by_id_self updates update d i))
    replaced (x ∷ xs) (inr j) = inr (replaced xs j)
