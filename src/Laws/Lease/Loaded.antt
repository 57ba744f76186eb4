-- ===== src/Laws/Lease/Loaded.antt =====
-- The work that a store of xsync_v2/lease_store.py loads from a snapshot.
use x_sync.Prelude.{
  >>=-eq-ok, Error, List-cases, Option, Option-cases, Result-cases, String, String-eq, [], arith,
  guard, inl, inr, none, ok, some, true, ◌==◌, ◌∷◌, ◌≡◌,
}
use x_sync.Domain.{CurrentWorkState, DialogueState}
use x_sync.Identity.{Sha256}
use x_sync.Lease.Current.{derive_authoritative_work, load_current_work, load_snapshot, present_work}
use x_sync.Lease.Model.{AuthoritativeWorkSnapshot}
use x_sync.Work.{
  RunnableWork, WorkOrigin, derive_queued, derive_runnable_work, derive_waiting, derive_work_id,
  no_work, origin_is_valid, origin_matches, provisional_work, queued_candidates, valid_work_shape,
  validate_runnable_work,
}

module _ ⦃h : Sha256⦄ where
  -- A validated work of this Session.
  abbrev pub WorkOf : String → RunnableWork → Type 0
  WorkOf session_id work =
      (valid_work_shape work ≡ true)
      × (work.session_id ≡ session_id)
      × (validate_runnable_work work ≡ ok work)

  validate-WorkOf :
      (item work : RunnableWork)
      → validate_runnable_work item ≡ ok work
      → WorkOf item.session_id work
  unfolding validate_runnable_work
  validate-WorkOf item work v =
      let same : item ≡ work = ground arith in (ground arith, ground arith, ground arith)

  derive_queued-WorkOf :
      (state : DialogueState) (origin : Option WorkOrigin) (current : CurrentWorkState)
      (work : RunnableWork)
      → derive_queued state origin current ≡ ok work
      → WorkOf state.session_id work
  unfolding derive_queued provisional_work
  derive_queued-WorkOf state none current work d = ground arith
  derive_queued-WorkOf state (some origin) current work d =
      let (_, g, d1) =
        >>=-eq-ok (guard (origin_is_valid origin state.sequence) Error.work_origin_invalid) _ d in
      let (_, m, d2) =
        >>=-eq-ok (guard (origin_matches origin current) Error.work_origin_trigger_mismatch) _ d1 in
      let (work_id, e, d3) =
        >>=-eq-ok (derive_work_id state.session_id origin current.trigger) _ d2 in
      let (_, s, d4) = >>=-eq-ok (guard (work_id == current.work_id) Error.state_invalid) _ d3 in
      validate-WorkOf _ work d4

  derive_waiting-WorkOf :
      (state : DialogueState) (origin : Option WorkOrigin) (work : RunnableWork)
      → derive_waiting state origin ≡ ok (some work)
      → WorkOf state.session_id work
  unfolding derive_waiting no_work
  derive_waiting-WorkOf state origin work d = elim (List-cases (queued_candidates state)) [
    | inl n ↦ elim (Option-cases origin) [ inl o ↦ ground arith | inr (o, p) ↦ ground arith ]
    | inr (current, [], q) ↦ elim (Result-cases (derive_queued state origin current)) [
      | inl (code, e) ↦ ground arith
      | inr (found, e) ↦ derive_queued-WorkOf state origin current work (ground arith)
    ]
    | inr (current, second ∷ rest, q) ↦ ground arith
  ]

  derive_runnable_work-WorkOf :
      (state : DialogueState) (origin : Option WorkOrigin) (work : RunnableWork)
      → derive_runnable_work state origin ≡ ok (some work)
      → WorkOf state.session_id work
  unfolding derive_runnable_work no_work
  derive_runnable_work-WorkOf state origin work d = elim (Option-cases origin) [
    | inl o ↦ derive_waiting-WorkOf state origin work (ground arith)
    | inr (found, o) ↦ derive_waiting-WorkOf state origin work (ground arith)
  ]

  pub load_current_work-WorkOf :
      (session_id : String) (snapshot : AuthoritativeWorkSnapshot) (work : RunnableWork)
      → load_current_work session_id snapshot ≡ ok work
      → WorkOf session_id work
  unfolding load_current_work load_snapshot derive_authoritative_work present_work
  load_current_work-WorkOf session_id snapshot work l =
      elim (Result-cases (derive_runnable_work snapshot.dialogue_state snapshot.work_origin)) [
        | inl (code, e) ↦ ground arith
        | inr (none, e) ↦ ground arith
        | inr (some found, e) ↦
            let w =
              derive_runnable_work-WorkOf snapshot.dialogue_state snapshot.work_origin found e in
            (ground arith, ground arith, ground arith)
      ]
