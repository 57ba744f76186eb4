-- ===== src/Laws/Valid/Work.antt =====
-- A queued work item is valid, and its id is a protocol id.
use Prim.Native.Char.{code}
use Prim.Native.String.{◌++◌ as append}
use Prim.Native.String.append
use x_sync.Prelude.{
  Error, Option, Result, String, [], all, all_mono, ap, arith, err, inl, inr, is_distinct, is_some,
  none, ok, refl, true, when, ℕ, ◌++◌, ◌∙◌, ◌∷◌, ◌≡◌, ◌≤◌, ◌⊎◌,
}
use x_sync.Domain.{
  CommittedDialogueEvent, CurrentWorkState, TriggerBinding, WorkFailure, WorkStatus,
}
use x_sync.Identity.{
  HasHexDigests, Sha256, canonical_identity, derive_canonical_work_id, is_canonical_trigger_binding,
}
use x_sync.Text.{codes, is_hex64, is_hex_char, is_id_char, is_protocol_id, protocol_id_pattern}
use x_sync.Validate.Shapes.{valid_work_failure}
use x_sync.Validate.Work.{is_expected_id, queued_work_from_event, valid_current_work, valid_status}

pub codes-append : (s t : String) → codes (append s t) ≡ codes s ++ codes t
codes-append String.[] t = ap codes (append.nil t)
codes-append (String.◌∷◌ c s) t =
    ap codes (append.cons c s t) ∙ ap (λ cs. code c ∷ cs) (codes-append s t)

hex-id_char : (c : ℕ) → is_hex_char c ≡ true → is_id_char c ≡ true
unfolding is_hex_char is_id_char
hex-id_char c h = ground arith

-- The id in front of a hex digest.
pub is_protocol_id-work :
    (hex : String) → is_hex64 (codes hex) ≡ true → is_protocol_id (append "work-" hex) ≡ true
unfolding is_protocol_id is_hex64 protocol_id_pattern is_id_char all
is_protocol_id-work hex v =
    rw (codes-append "work-" hex)
      (ground (arith, all_mono is_hex_char is_id_char (codes hex) hex-id_char))

module _ ⦃h : Sha256⦄ where
  -- A work id is derived when the ids and the trigger are well formed and the sequence is positive,
  -- and it is a protocol id, if the hex digests have 64 lower-case digits.
  pub derive_canonical_work_id_lem :
      (session_id event_id : String) (sequence : ℕ) (trigger : TriggerBinding)
      → HasHexDigests h
      → is_protocol_id session_id ≡ true
      → is_protocol_id event_id ≡ true
      → 1 ≤ sequence
      → is_canonical_trigger_binding trigger ≡ true
      → (work_id : String) × (derive_canonical_work_id session_id event_id sequence trigger
          ≡ ok work_id)
        × (is_protocol_id work_id ≡ true)
  unfolding derive_canonical_work_id
  derive_canonical_work_id_lem session_id event_id sequence trigger hex s e q t = (
    append "work-" (h.hexdigest (canonical_identity session_id event_id sequence trigger)),
    ground arith,
    is_protocol_id-work _ (hex _),
  )

  pub record Queued (session_id : String) (event : CommittedDialogueEvent)
      (trigger : TriggerBinding) (attempt : ℕ) (failure : Option WorkFailure)
      (work : CurrentWorkState) : Type 0 where
    pub trigger_eq : work.trigger ≡ trigger
    pub status : work.status ≡ WorkStatus.queued
    pub attempt_eq : work.attempt ≡ attempt
    pub last_failure : work.last_failure ≡ failure
    pub actions : work.allowed_recovery_actions ≡ []
    pub canonical : is_canonical_trigger_binding trigger ≡ true
    pub valid : valid_current_work work session_id event.sequence ≡ true

  pub queued_work_from_event-Queued :
      (session_id : String) (event : CommittedDialogueEvent) (trigger : TriggerBinding)
      (attempt : ℕ) (failure : Option WorkFailure) {work : CurrentWorkState}
      → HasHexDigests h
      → queued_work_from_event session_id event trigger attempt failure ≡ ok work
      → 1 ≤ attempt
      → attempt ≤ 3
      → when true valid_work_failure failure ≡ true
      → ((attempt ≡ 1) ⊎ (is_some failure ≡ true))
      → Queued session_id event trigger attempt failure work
  unfolding queued_work_from_event derive_canonical_work_id valid_current_work valid_status
      is_expected_id is_distinct
  queued_work_from_event-Queued session_id event trigger attempt failure hex e lo hi v a = ground (
    arith,
    is_protocol_id-work
        (h.hexdigest (canonical_identity session_id event.event_id event.sequence trigger)) (hex _),
  )

  -- A queued first attempt, or the error of its derivation.
  pub Queued-cases :
      (session_id : String) (event : CommittedDialogueEvent) (trigger : TriggerBinding)
      → HasHexDigests h
      → ((code : Error) × (queued_work_from_event session_id event trigger 1 none ≡ err code))
        ⊎ ((work : CurrentWorkState) × (queued_work_from_event session_id event trigger 1 none
              ≡ ok work)
            × Queued session_id event trigger 1 none work)
  Queued-cases session_id event trigger hex =
      go (queued_work_from_event session_id event trigger 1 none) refl
    where
      go :
          (r : Result CurrentWorkState)
          → queued_work_from_event session_id event trigger 1 none ≡ r
          → ((code : Error) × (queued_work_from_event session_id event trigger 1 none ≡ err code))
            ⊎ ((work : CurrentWorkState) × (queued_work_from_event session_id event trigger 1 none
                  ≡ ok work)
                × Queued session_id event trigger 1 none work)
      go (err code) e = inl (code, e)
      go (ok work) e = inr (
        work,
        e,
        queued_work_from_event-Queued session_id event trigger 1 none hex e (omega arith)
            (omega arith) refl (inl refl),
      )
