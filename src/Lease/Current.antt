-- ===== src/Lease/Current.antt =====
-- The current work of a Session in xsync_v2/lease_store.py, from the snapshot that the loader gave:
-- `_load_snapshot`, `_derive_authoritative_work`, `_canonical_work_attempt` and the readers on them.
-- The loader and the lock authority are not modelled.
use x_sync.Prelude.{
  Bool, Error, Option, Option-eq, Result, String, String-eq, [], err, false, guard, if◌then◌else◌,
  is_none, none, ok, some, when, ℕ, ℕ-eq, ◌!=◌, ◌&&◌, ◌==◌, ◌>>=◌, ◌>>◌, ◌||◌, ◌∷◌,
}
use x_sync.Domain.{DialogueState}
use x_sync.Identity.{Sha256}
use x_sync.Lease.Model.{AuthoritativeWorkSnapshot, CurrentRunnableWork}
use x_sync.Registry.Model.{
  DialogueRegistrationStatus, DialogueRegistrationStatus-eq, RegisteredDialogue, RegistryState,
}
use x_sync.Registry.Valid.{dialogue_by_id}
use x_sync.Text.{is_protocol_id}
use x_sync.Work.{RunnableWork, derive_runnable_work, queued_candidates}

unfoldable pub canonical_work_attempt : DialogueState → RunnableWork → Result ℕ
canonical_work_attempt state work = elim (queued_candidates state) [
  | [] ↦ err Error.authoritative_work_invalid
  | current ∷ [] ↦
      if (current.work_id != work.work_id)
        || (current.trigger_event_id != work.trigger_event_id)
        || (current.trigger_event_sequence != work.trigger_event_sequence)
      then err Error.authoritative_work_invalid
      else ok current.attempt
  | first ∷ second ∷ rest ↦ err Error.authoritative_work_invalid
]

-- The Session is the current one of the registry, and no handoff is pending.
unfoldable pub is_current_session : String → RegistryState → ℕ → Bool
is_current_session session_id registry registry_generation =
    (registry.current_session_id == some session_id)
    && is_none registry.pending_handoff
    && (registry.generation == registry_generation)
    && when false
        (λ (registration : RegisteredDialogue).
          (registration.status == DialogueRegistrationStatus.active)
          && (registration.activated_generation == some registry.generation))
        (dialogue_by_id registry.dialogues session_id)

unfoldable pub load_snapshot : String → AuthoritativeWorkSnapshot → Result AuthoritativeWorkSnapshot
load_snapshot session_id snapshot =
    if snapshot.dialogue_state.session_id != session_id
    then err Error.authoritative_snapshot_invalid
    else ok snapshot

module _ ⦃h : Sha256⦄ where
  -- `_derive_authoritative_work` with `current=True`.
  unfoldable pub derive_authoritative_work :
      String → AuthoritativeWorkSnapshot → Result (Option RunnableWork)
  derive_authoritative_work session_id snapshot = do
    work ← derive_runnable_work snapshot.dialogue_state snapshot.work_origin
    guard
        (is_current_session session_id snapshot.registry_state
          snapshot.dialogue_state.registry_generation)
        Error.session_deactivated
    ok work

  unfoldable pub runnable_of :
      DialogueState → Option RunnableWork → Result (Option CurrentRunnableWork)
  runnable_of state none = ok none
  runnable_of state (some work) = do
    attempt ← canonical_work_attempt state work
    ok (some (record { work = work; attempt = attempt }))

  -- `observe_current_work` and `current_runnable`.
  unfoldable pub current_runnable :
      String → AuthoritativeWorkSnapshot → Result (Option CurrentRunnableWork)
  current_runnable session_id loaded = do
    guard (is_protocol_id session_id) Error.invalid_session_id
    snapshot ← load_snapshot session_id loaded
    work ← derive_authoritative_work session_id snapshot
    runnable_of snapshot.dialogue_state work

  unfoldable pub present_work : Option RunnableWork → Result RunnableWork
  present_work none = err Error.no_runnable_work
  present_work (some work) = ok work

  unfoldable pub load_current_work : String → AuthoritativeWorkSnapshot → Result RunnableWork
  load_current_work session_id loaded = do
    snapshot ← load_snapshot session_id loaded
    work ← derive_authoritative_work session_id snapshot
    present_work work
