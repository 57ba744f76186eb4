-- ===== src/Domain/Work.antt =====
-- Triggers, work items, evidence, exports and contexts of xsync_v2/domain.py.
use x_sync.Prelude.{ℕ, String, Option, List, Eq, String-discrete, ℕ_discrete}
use x_sync.Domain.Enums.{
  EvidenceHealth, TriggerKind, WorkStatus, WorkFailureCategory, WorkRecoveryAction, ExportStatus,
  TriggerKind-discrete, WorkStatus-discrete, WorkFailureCategory-discrete,
  WorkRecoveryAction-discrete,
}

pub record TriggerBinding : Type 0 where
  pub kind : TriggerKind
  pub work_id : String
  pub runtime_epoch : String
  pub parent_turn_id : Option String
  pub contract_digest : Option String
  pub input_digest : String
  pub evidence_digest : String

unfoldable pub TriggerBinding-discrete : Discrete TriggerBinding
TriggerBinding-discrete = hlevel (TriggerKind-discrete, String-discrete)

instance abbrev pub TriggerBinding-eq : Eq TriggerBinding
TriggerBinding-eq = record { dec = TriggerBinding-discrete }

pub record WorkFailure : Type 0 where
  pub failure_id : String
  pub category : WorkFailureCategory
  pub safe_error_code : String
  pub proof_digest : String

unfoldable pub WorkFailure-discrete : Discrete WorkFailure
WorkFailure-discrete = hlevel (String-discrete, WorkFailureCategory-discrete)

instance abbrev pub WorkFailure-eq : Eq WorkFailure
WorkFailure-eq = record { dec = WorkFailure-discrete }

pub record CurrentWorkState : Type 0 where
  pub work_id : String
  pub trigger_event_id : String
  pub trigger_event_sequence : ℕ
  pub trigger : TriggerBinding
  pub attempt : ℕ
  pub status : WorkStatus
  pub last_failure : Option WorkFailure
  pub allowed_recovery_actions : List WorkRecoveryAction

unfoldable pub CurrentWorkState-discrete : Discrete CurrentWorkState
CurrentWorkState-discrete = hlevel (
  String-discrete, ℕ_discrete, TriggerBinding-discrete, WorkStatus-discrete, WorkFailure-discrete,
  WorkRecoveryAction-discrete,
)

instance abbrev pub CurrentWorkState-eq : Eq CurrentWorkState
CurrentWorkState-eq = record { dec = CurrentWorkState-discrete }

pub record EvidenceCheck : Type 0 where
  pub health : EvidenceHealth
  pub evidence_digest : String
  pub exact_recheck_fingerprint : Option String

pub record DecisionContext : Type 0 where
  pub registry_generation : ℕ
  pub trigger : Option TriggerBinding
  pub evidence : EvidenceCheck

pub record ExportRecord : Type 0 where
  pub export_id : String
  pub export_sequence : ℕ
  pub intent_id : String
  pub as_of_event_sequence : ℕ
  pub requested_at : String
  pub payload_digest : String
  pub status : ExportStatus
  pub completed_at : Option String
  pub json_path : Option String
  pub json_digest : Option String
  pub markdown_path : Option String
  pub markdown_digest : Option String
  pub freshness_overlay_digest : Option String

pub record FencedQuiesceContext : Type 0 where
  pub handoff_id : String
  pub source_session_id : String
  pub source_generation : ℕ
  pub fence_generation : ℕ
