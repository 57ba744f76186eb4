-- ===== src/Registry/Model.antt =====
-- The registry of dialogues: the records and unions of xsync_v2/registry.py.
use x_sync.Prelude.{Eq, List, Option, String, String-discrete, ℕ, ℕ_discrete}

pub data DialogueRegistrationStatus : Type 0 where
  created active deactivating deactivated : DialogueRegistrationStatus

unfoldable pub DialogueRegistrationStatus-discrete : Discrete DialogueRegistrationStatus
DialogueRegistrationStatus-discrete = hlevel

instance abbrev pub DialogueRegistrationStatus-eq : Eq DialogueRegistrationStatus
DialogueRegistrationStatus-eq = record { dec = DialogueRegistrationStatus-discrete }

pub data ActivationKind : Type 0 where
  initial handoff : ActivationKind

unfoldable pub ActivationKind-discrete : Discrete ActivationKind
ActivationKind-discrete = hlevel

instance abbrev pub ActivationKind-eq : Eq ActivationKind
ActivationKind-eq = record { dec = ActivationKind-discrete }

pub record ActivateTarget : Type 0 where
  pub session_id : String
  pub config_digest : String

unfoldable pub ActivateTarget-discrete : Discrete ActivateTarget
ActivateTarget-discrete = hlevel String-discrete

instance abbrev pub ActivateTarget-eq : Eq ActivateTarget
ActivateTarget-eq = record { dec = ActivateTarget-discrete }

pub record RegisteredDialogue : Type 0 where
  pub session_id : String
  pub config_digest : String
  pub status : DialogueRegistrationStatus
  pub created_registry_sequence : ℕ
  pub activated_generation : Option ℕ
  pub deactivated_generation : Option ℕ
  pub deactivation_handoff_id : Option String

unfoldable pub RegisteredDialogue-discrete : Discrete RegisteredDialogue
RegisteredDialogue-discrete =
    hlevel (String-discrete, ℕ_discrete, DialogueRegistrationStatus-discrete)

instance abbrev pub RegisteredDialogue-eq : Eq RegisteredDialogue
RegisteredDialogue-eq = record { dec = RegisteredDialogue-discrete }

pub record PendingHandoff : Type 0 where
  pub handoff_id : String
  pub source_session_id : String
  pub target : ActivateTarget
  pub generation : ℕ
  pub started_registry_sequence : ℕ

pub record QuiesceProof : Type 0 where
  pub source_session_id : String
  pub target : ActivateTarget
  pub handoff_id : String
  pub generation : ℕ
  pub dialogue_last_sequence : ℕ
  pub dialogue_last_event_id : String
  pub dialogue_event_digest : String
  pub dialogue_transaction_digest : String
  pub dialogue_state_digest : String

pub record CommandReceipt : Type 0 where
  pub command_id : String
  pub body_digest : String
  pub transaction_id : String
  pub transaction_digest : String
  pub first_registry_sequence : ℕ
  pub last_registry_sequence : ℕ
  pub event_ids : List String
  pub event_digests : List String

pub record RegistryState : Type 0 where
  pub registry_id : String
  pub registry_sequence : ℕ
  pub generation : ℕ
  pub current_session_id : Option String
  pub dialogues : List RegisteredDialogue
  pub pending_handoff : Option PendingHandoff
  pub receipts : List CommandReceipt
