-- ===== src/Prelude/Results.antt =====
-- Code that may raise an exception: the codes of the exceptions, and a result type with `do`.
use mathlib.Core.Path.{◌≡◌, refl}
use mathlib.Core.Logic.{◌⊎◌, inl, inr}
use mathlib.Core.Bool.{Bool, true, false}
use mathlib.Core.Option.{Option, none, some}

pub data Error : Type 0 where
  invalid_dialogue_envelope work_id_input_invalid state_invariant_violation : Error
  invalid_event_envelope event_sequence_gap event_version_conflict : Error
  illegal_event_transition unknown_event : Error
  invalid_registry_id invalid_registry_event invalid_registry_transaction : Error
  registry_sequence_gap registry_generation_conflict registry_integrity_error : Error
  idempotency_conflict : Error
  state_invalid work_origin_unexpected work_origin_invalid : Error
  work_origin_trigger_mismatch runnable_work_invalid authoritative_work_invalid : Error
  authoritative_snapshot_invalid session_deactivated no_runnable_work invalid_session_id : Error
  invalid_claim_request invalid_renew_request invalid_reclaim_request : Error
  invalid_publish_fence lease_exhaustion_proof_invalid lease_record_invalid : Error
  lease_history_invalid lease_not_found lease_fenced lease_version_conflict : Error
  lease_epoch_fenced lease_tenure_expired lease_expired lease_still_active : Error
  lease_renewal_limit lease_renewal_not_extended lease_reclaim_required : Error
  lease_reclaim_not_exhausted lease_concurrent_modification work_already_leased : Error
  work_superseded work_identity_conflict claim_id_reused owner_id_reused : Error
  lease_record_too_large secure_fs_error lock_error : Error
  clock_failed clock_rolled_back runtime_authority_failed runtime_authority_rejected : Error

pub data Result {ℓ} (X : Type ℓ) : Type ℓ where
  err : Error → Result X
  ok : X → Result X

infixl 5 ◌>>=◌ ◌>>◌
-- The rest of a body runs on the value, unless an exception was raised before.
abbrev pub ◌>>=◌ {ℓ ℓy} : {X : Type ℓ} → {Y : Type ℓy} → Result X → (X → Result Y) → Result Y
err code >>= rest = err code
ok value >>= rest = rest value

abbrev pub ◌>>◌ {ℓ} : {Y : Type ℓ} → Result (Unit {0}) → Result Y → Result Y
body >> rest = body >>= λ done. rest

-- A call that raises this error, if any.
abbrev pub raise_any : Option Error → Result (Unit {0})
raise_any none = ok tt
raise_any (some code) = err code

-- `if not test: raise ValueError(code)`.
abbrev pub guard : Bool → Error → Result (Unit {0})
guard false code = err code
guard true code = ok tt

-- A body that returns has a first part that returns.
pub >>=-eq-ok {ℓ ℓy} :
    {X : Type ℓ} {Y : Type ℓy} (first : Result X) (rest : X → Result Y) {y : Y}
    → (first >>= rest) ≡ ok y
    → (x : X) × (first ≡ ok x) × (rest x ≡ ok y)
>>=-eq-ok (err code) rest returned = cc
>>=-eq-ok (ok x) rest returned = (x, refl, returned)

pub guard-eq-ok : (test : Bool) (code : Error) {u : Unit {0}} → guard test code ≡ ok u → test ≡ true
guard-eq-ok false code returned = cc
guard-eq-ok true code returned = refl

pub Result-cases {ℓ} :
    {X : Type ℓ} (r : Result X) → ((code : Error) × (r ≡ err code)) ⊎ ((x : X) × (r ≡ ok x))
Result-cases (err code) = inl (code, refl)
Result-cases (ok x) = inr (x, refl)
