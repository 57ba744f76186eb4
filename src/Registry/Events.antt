-- ===== src/Registry/Events.antt =====
-- The commands, events, transactions and decisions of xsync_v2/registry.py.
use x_sync.Prelude.{List, Option, String, ℕ}
use x_sync.Registry.Model.{
  ActivateTarget, ActivationKind, CommandReceipt, PendingHandoff, QuiesceProof,
}

pub record CreateAndActivateDialogue : Type 0 where
  pub command_id : String
  pub body_digest : String
  pub expected_registry_sequence : ℕ
  pub expected_generation : ℕ
  pub target : ActivateTarget

pub record BeginHandoff : Type 0 where
  pub command_id : String
  pub body_digest : String
  pub expected_registry_sequence : ℕ
  pub expected_generation : ℕ
  pub handoff_id : String
  pub source_session_id : String
  pub target : ActivateTarget

pub record CompleteHandoff : Type 0 where
  pub command_id : String
  pub body_digest : String
  pub expected_registry_sequence : ℕ
  pub expected_generation : ℕ
  pub handoff_id : String
  pub proof : QuiesceProof

pub data RegistryCommand : Type 0 where
  create_and_activate_dialogue : CreateAndActivateDialogue → RegistryCommand
  begin_handoff : BeginHandoff → RegistryCommand
  complete_handoff : CompleteHandoff → RegistryCommand

pub record DialogueCreated : Type 0 where
  pub target : ActivateTarget

pub record DeactivationStarted : Type 0 where
  pub handoff : PendingHandoff

pub record Deactivated : Type 0 where
  pub proof : QuiesceProof

pub record Activated : Type 0 where
  pub target : ActivateTarget
  pub generation : ℕ
  pub activation_kind : ActivationKind
  pub handoff_id : Option String

pub data RegistryEventPayload : Type 0 where
  dialogue_created : DialogueCreated → RegistryEventPayload
  deactivation_started : DeactivationStarted → RegistryEventPayload
  dialogue_deactivated : Deactivated → RegistryEventPayload
  dialogue_activated : Activated → RegistryEventPayload

pub record PendingRegistryEvent : Type 0 where
  pub command_id : String
  pub body_digest : String
  pub payload : RegistryEventPayload

pub record CommittedRegistryEvent : Type 0 where
  pub event_id : String
  pub event_digest : String
  pub registry_sequence : ℕ
  pub generation : ℕ
  pub command_id : String
  pub body_digest : String
  pub payload : RegistryEventPayload

pub record CommittedRegistryTransaction : Type 0 where
  pub transaction_id : String
  pub transaction_digest : String
  pub events : List CommittedRegistryEvent

-- The codes of `RegistryRejected`.
pub data RegistryCode : Type 0 where
  state_invariant_violation validation_failed idempotency_conflict : RegistryCode
  registry_sequence_conflict registry_generation_conflict registry_state_conflict : RegistryCode
  handoff_in_progress session_not_current handoff_id_conflict : RegistryCode
  target_session_conflict handoff_proof_invalid : RegistryCode

pub data RegistryDecision : Type 0 where
  registry_accepted : List PendingRegistryEvent → RegistryDecision
  registry_rejected : RegistryCode → RegistryDecision
  registry_idempotent : CommandReceipt → RegistryDecision
