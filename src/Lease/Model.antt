-- ===== src/Lease/Model.antt =====
-- The records and unions of xsync_v2/lease_store.py.
use x_sync.Prelude.{
  Bool, Eq, Option, String, String-discrete, inl, inr, refl, ℕ, ℕ_discrete, ◌≡◌, ◌⊎◌,
}
use x_sync.Domain.{DialogueState}
use x_sync.Registry.Model.{RegistryState}
use x_sync.Work.{RunnableWork, WorkOrigin}

pub data LeaseOperation : Type 0 where
  claim renew reclaim : LeaseOperation

unfoldable pub LeaseOperation-discrete : Discrete LeaseOperation
LeaseOperation-discrete = hlevel

instance abbrev pub LeaseOperation-eq : Eq LeaseOperation
LeaseOperation-eq = record { dec = LeaseOperation-discrete }

pub LeaseOperation-cases :
    (operation : LeaseOperation)
    → (operation ≡ LeaseOperation.claim)
      ⊎ ((operation ≡ LeaseOperation.renew) ⊎ (operation ≡ LeaseOperation.reclaim))
LeaseOperation-cases LeaseOperation.claim = inl refl
LeaseOperation-cases LeaseOperation.renew = inr (inl refl)
LeaseOperation-cases LeaseOperation.reclaim = inr (inr refl)

pub record ClaimRequest : Type 0 where
  pub session_id : String
  pub request_id : String
  pub claim_id : String
  pub work_id : String
  pub owner_id : String
  pub lease_seconds : ℕ
  pub max_tenure_seconds : ℕ

pub record RenewRequest : Type 0 where
  pub session_id : String
  pub request_id : String
  pub claim_id : String
  pub work_id : String
  pub owner_id : String
  pub expected_lease_version : ℕ
  pub lease_seconds : ℕ

pub record ReclaimRequest : Type 0 where
  pub session_id : String
  pub request_id : String
  pub claim_id : String
  pub work_id : String
  pub owner_id : String
  pub expected_work_attempt : ℕ
  pub lease_seconds : ℕ
  pub max_tenure_seconds : ℕ

pub data LeaseRequest : Type 0 where
  claim_request : ClaimRequest → LeaseRequest
  renew_request : RenewRequest → LeaseRequest
  reclaim_request : ReclaimRequest → LeaseRequest

pub record PublishFence : Type 0 where
  pub session_id : String
  pub claim_id : String
  pub work_id : String
  pub owner_id : String
  pub runtime_epoch : String
  pub lease_version : ℕ
  pub registry_generation : ℕ

pub record LeaseRecord : Type 0 where
  pub session_id : String
  pub work_id : String
  pub binding_digest : String
  pub claim_id : String
  pub owner_id : String
  pub runtime_epoch : String
  pub lease_version : ℕ
  pub registry_generation : ℕ
  pub acquired_at : ℕ
  pub renewed_at : ℕ
  pub expires_at : ℕ
  pub absolute_expires_at : ℕ

pub record LeaseMutationOutcome : Type 0 where
  pub operation : LeaseOperation
  pub lease : LeaseRecord
  pub replayed : Bool

pub record LeaseExhaustionProof : Type 0 where
  pub session_id : String
  pub work_id : String
  pub binding_digest : String
  pub work_attempt : ℕ
  pub reclaim_count : ℕ
  pub last_lease_version : ℕ
  pub history_digest : String
  pub requesting_runtime_epoch : String
  pub requesting_owner_id : String
  pub reclaim_request_id : String
  pub reclaim_request_digest : String

unfoldable pub LeaseExhaustionProof-discrete : Discrete LeaseExhaustionProof
LeaseExhaustionProof-discrete = hlevel (String-discrete, ℕ_discrete)

instance abbrev pub LeaseExhaustionProof-eq : Eq LeaseExhaustionProof
LeaseExhaustionProof-eq = record { dec = LeaseExhaustionProof-discrete }

pub data ReclaimOutcome : Type 0 where
  reclaimed : LeaseMutationOutcome → ReclaimOutcome
  exhausted : LeaseExhaustionProof → ReclaimOutcome

pub record CurrentRunnableWork : Type 0 where
  pub work : RunnableWork
  pub attempt : ℕ

pub record AuthoritativeWorkSnapshot : Type 0 where
  pub dialogue_state : DialogueState
  pub registry_state : RegistryState
  pub work_origin : Option WorkOrigin

pub record RuntimeAuthorityCheck : Type 0 where
  pub operation : Option LeaseOperation
  pub runtime_epoch : String
  pub owner_id : String
  pub prior_runtime_epoch : Option String
  pub prior_owner_id : Option String
  pub prior_owner_must_be_inactive : Bool

-- `_LeaseTransaction`.
pub record LeaseTransaction : Type 0 where
  pub transaction_sequence : ℕ
  pub operation : LeaseOperation
  pub request_id : String
  pub request_digest : String
  pub request : LeaseRequest
  pub recorded_at : ℕ
  pub previous_transaction_hash : Option String
  pub work : RunnableWork
  pub lease : LeaseRecord
  pub transaction_hash : String
