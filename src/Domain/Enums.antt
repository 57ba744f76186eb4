-- ===== src/Domain/Enums.antt =====
-- The enums of xsync_v2/domain.py; every member keeps its value as its name.
use x_sync.Prelude.{Eq}

pub data ConversationPhase : Type 0 where
  none_phase choosing_topic clarifying_topic awaiting_user waiting_host recoverable_error :
      ConversationPhase

unfoldable pub ConversationPhase-discrete : Discrete ConversationPhase
ConversationPhase-discrete = hlevel

instance abbrev pub ConversationPhase-eq : Eq ConversationPhase
ConversationPhase-eq = record { dec = ConversationPhase-discrete }

pub data SessionLifecycle : Type 0 where
  new opened ended : SessionLifecycle

unfoldable pub SessionLifecycle-discrete : Discrete SessionLifecycle
SessionLifecycle-discrete = hlevel

instance abbrev pub SessionLifecycle-eq : Eq SessionLifecycle
SessionLifecycle-eq = record { dec = SessionLifecycle-discrete }

pub data TopicLifecycle : Type 0 where
  active paused completed : TopicLifecycle

unfoldable pub TopicLifecycle-discrete : Discrete TopicLifecycle
TopicLifecycle-discrete = hlevel

instance abbrev pub TopicLifecycle-eq : Eq TopicLifecycle
TopicLifecycle-eq = record { dec = TopicLifecycle-discrete }

pub data EvidenceHealth : Type 0 where
  current captured_dirty stale disputed unavailable : EvidenceHealth

unfoldable pub EvidenceHealth-discrete : Discrete EvidenceHealth
EvidenceHealth-discrete = hlevel

instance abbrev pub EvidenceHealth-eq : Eq EvidenceHealth
EvidenceHealth-eq = record { dec = EvidenceHealth-discrete }

pub data Lens : Type 0 where
  business technical mixed : Lens

unfoldable pub Lens-discrete : Discrete Lens
Lens-discrete = hlevel

instance abbrev pub Lens-eq : Eq Lens
Lens-eq = record { dec = Lens-discrete }

pub data GateId : Type 0 where
  mechanism boundary repository_application : GateId

unfoldable pub GateId-discrete : Discrete GateId
GateId-discrete = hlevel

instance abbrev pub GateId-eq : Eq GateId
GateId-eq = record { dec = GateId-discrete }

pub data GateStatus : Type 0 where
  unexplored emerging assisted supported stale disputed : GateStatus

unfoldable pub GateStatus-discrete : Discrete GateStatus
GateStatus-discrete = hlevel

instance abbrev pub GateStatus-eq : Eq GateStatus
GateStatus-eq = record { dec = GateStatus-discrete }

pub data QuestionIntent : Type 0 where
  clarify causal_trace assumption_test counterexample evidence_locate business_technical_bridge
        repository_apply synthesize :
      QuestionIntent

unfoldable pub QuestionIntent-discrete : Discrete QuestionIntent
QuestionIntent-discrete = hlevel

instance abbrev pub QuestionIntent-eq : Eq QuestionIntent
QuestionIntent-eq = record { dec = QuestionIntent-discrete }

pub data InsightKind : Type 0 where
  technical_conclusion business_insight business_technical_mapping boundary open_question :
      InsightKind

unfoldable pub InsightKind-discrete : Discrete InsightKind
InsightKind-discrete = hlevel

instance abbrev pub InsightKind-eq : Eq InsightKind
InsightKind-eq = record { dec = InsightKind-discrete }

pub data InsightStatus : Type 0 where
  confirmed working_model open_question stale disputed : InsightStatus

unfoldable pub InsightStatus-discrete : Discrete InsightStatus
InsightStatus-discrete = hlevel

instance abbrev pub InsightStatus-eq : Eq InsightStatus
InsightStatus-eq = record { dec = InsightStatus-discrete }

pub data InsightProvenance : Type 0 where
  learner_explicit agent_inferred jointly_confirmed : InsightProvenance

unfoldable pub InsightProvenance-discrete : Discrete InsightProvenance
InsightProvenance-discrete = hlevel

instance abbrev pub InsightProvenance-eq : Eq InsightProvenance
InsightProvenance-eq = record { dec = InsightProvenance-discrete }

pub data TriggerKind : Type 0 where
  topic_candidates topic_selection initial_turn learner_reply help lens_changed reground :
      TriggerKind

unfoldable pub TriggerKind-discrete : Discrete TriggerKind
TriggerKind-discrete = hlevel

instance abbrev pub TriggerKind-eq : Eq TriggerKind
TriggerKind-eq = record { dec = TriggerKind-discrete }

pub data WorkStatus : Type 0 where
  queued failed dead_letter completed superseded : WorkStatus

unfoldable pub WorkStatus-discrete : Discrete WorkStatus
WorkStatus-discrete = hlevel

instance abbrev pub WorkStatus-eq : Eq WorkStatus
WorkStatus-eq = record { dec = WorkStatus-discrete }

pub data WorkFailureCategory : Type 0 where
  host_transient result_invalid lease_attempts_exhausted host_permanent : WorkFailureCategory

unfoldable pub WorkFailureCategory-discrete : Discrete WorkFailureCategory
WorkFailureCategory-discrete = hlevel

instance abbrev pub WorkFailureCategory-eq : Eq WorkFailureCategory
WorkFailureCategory-eq = record { dec = WorkFailureCategory-discrete }

pub data WorkRecoveryAction : Type 0 where
  retry reground : WorkRecoveryAction

unfoldable pub WorkRecoveryAction-discrete : Discrete WorkRecoveryAction
WorkRecoveryAction-discrete = hlevel

instance abbrev pub WorkRecoveryAction-eq : Eq WorkRecoveryAction
WorkRecoveryAction-eq = record { dec = WorkRecoveryAction-discrete }

pub data PauseCause : Type 0 where
  user session_deactivation : PauseCause

unfoldable pub PauseCause-discrete : Discrete PauseCause
PauseCause-discrete = hlevel

instance abbrev pub PauseCause-eq : Eq PauseCause
PauseCause-eq = record { dec = PauseCause-discrete }

pub data ExportStatus : Type 0 where
  requested completed : ExportStatus

unfoldable pub ExportStatus-discrete : Discrete ExportStatus
ExportStatus-discrete = hlevel

instance abbrev pub ExportStatus-eq : Eq ExportStatus
ExportStatus-eq = record { dec = ExportStatus-discrete }
