-- ===== src/Domain/Topic.antt =====
-- Contracts, gates, the learner model and Topic Runs of xsync_v2/domain.py.
use x_sync.Prelude.{none, some, ℕ, String, Bool, Option, List, Eq, String-discrete, ℕ_discrete}
use x_sync.Domain.Enums.{
  TopicLifecycle, EvidenceHealth, Lens, GateId, GateStatus, QuestionIntent, InsightKind,
  InsightStatus, InsightProvenance, TopicLifecycle-discrete, EvidenceHealth-discrete, Lens-discrete,
  GateId-discrete, GateStatus-discrete, QuestionIntent-discrete, InsightKind-discrete,
  InsightStatus-discrete, InsightProvenance-discrete,
}
use x_sync.Domain.Work.{CurrentWorkState, CurrentWorkState-discrete}

pub record GateRequirement : Type 0 where
  pub gate_id : GateId
  pub required : Bool

unfoldable pub GateRequirement-discrete : Discrete GateRequirement
GateRequirement-discrete = hlevel GateId-discrete

instance abbrev pub GateRequirement-eq : Eq GateRequirement
GateRequirement-eq = record { dec = GateRequirement-discrete }

pub record GateAssessment : Type 0 where
  pub gate_id : GateId
  pub status : GateStatus
  pub source_turn_ids : List String
  pub evidence_refs : List String

unfoldable pub GateAssessment-discrete : Discrete GateAssessment
GateAssessment-discrete = hlevel (GateId-discrete, GateStatus-discrete, String-discrete)

instance abbrev pub GateAssessment-eq : Eq GateAssessment
GateAssessment-eq = record { dec = GateAssessment-discrete }

pub record TaskScope : Type 0 where
  pub task_id : String
  pub summary : String
  pub included_paths : List String
  pub excluded_paths : List String

unfoldable pub TaskScope-discrete : Discrete TaskScope
TaskScope-discrete = hlevel String-discrete

instance abbrev pub TaskScope-eq : Eq TaskScope
TaskScope-eq = record { dec = TaskScope-discrete }

pub record TopicContract : Type 0 where
  pub contract_id : String
  pub contract_version : ℕ
  pub topic_run_id : String
  pub title : String
  pub guiding_question : String
  pub objective : String
  pub task_scope : TaskScope
  pub starting_lens : Lens
  pub bridge_required : Bool
  pub evidence_refs : List String
  pub gates : List GateRequirement
  pub supersedes_contract_id : Option String
  pub contract_digest : String

unfoldable pub TopicContract-discrete : Discrete TopicContract
TopicContract-discrete =
    hlevel
      (String-discrete, ℕ_discrete, TaskScope-discrete, Lens-discrete, GateRequirement-discrete)

instance abbrev pub TopicContract-eq : Eq TopicContract
TopicContract-eq = record { dec = TopicContract-discrete }

pub record LearnerModelEntry : Type 0 where
  pub entry_id : String
  pub kind : InsightKind
  pub status : InsightStatus
  pub provenance : InsightProvenance
  pub statement : String
  pub source_turn_ids : List String
  pub evidence_refs : List String

unfoldable pub LearnerModelEntry-discrete : Discrete LearnerModelEntry
LearnerModelEntry-discrete =
    hlevel
      (String-discrete, InsightKind-discrete, InsightStatus-discrete, InsightProvenance-discrete)

instance abbrev pub LearnerModelEntry-eq : Eq LearnerModelEntry
LearnerModelEntry-eq = record { dec = LearnerModelEntry-discrete }

pub record AgentTurnResult : Type 0 where
  pub heard : String
  pub one_step_further : String
  pub question_id : String
  pub question : String
  pub question_intent : QuestionIntent
  pub learner_model_delta : List LearnerModelEntry
  pub gate_assessments : List GateAssessment
  pub evidence_refs : List String

unfoldable pub AgentTurnResult-discrete : Discrete AgentTurnResult
AgentTurnResult-discrete =
    hlevel (
      String-discrete, QuestionIntent-discrete, LearnerModelEntry-discrete, GateAssessment-discrete,
    )

instance abbrev pub AgentTurnResult-eq : Eq AgentTurnResult
AgentTurnResult-eq = record { dec = AgentTurnResult-discrete }

pub record TopicSummary : Type 0 where
  pub takeaway : String
  pub confirmed_entry_ids : List String
  pub open_questions : List String
  pub next_suggestion : String

unfoldable pub TopicSummary-discrete : Discrete TopicSummary
TopicSummary-discrete = hlevel String-discrete

instance abbrev pub TopicSummary-eq : Eq TopicSummary
TopicSummary-eq = record { dec = TopicSummary-discrete }

pub record TopicClarification : Type 0 where
  pub question_id : String
  pub question : String
  pub answer : Option String

unfoldable pub TopicClarification-discrete : Discrete TopicClarification
TopicClarification-discrete = hlevel String-discrete

instance abbrev pub TopicClarification-eq : Eq TopicClarification
TopicClarification-eq = record { dec = TopicClarification-discrete }

pub record TopicRunState : Type 0 where
  pub topic_run_id : String
  pub contract : TopicContract
  pub lifecycle : TopicLifecycle
  pub evidence_health : EvidenceHealth
  pub evidence_digest : String
  pub exact_recheck_fingerprint : Option String
  pub gates : List GateAssessment
  pub learner_model : List LearnerModelEntry
  pub current_agent_turn : Option AgentTurnResult
  pub work : Option CurrentWorkState
  pub learner_turn_ids : List String
  pub last_learner_turn_id : Option String
  pub last_learner_text : Option String
  pub current_lens : Option Lens
  pub summary : Option TopicSummary

unfoldable pub TopicRunState-discrete : Discrete TopicRunState
TopicRunState-discrete = hlevel (
  String-discrete, TopicContract-discrete, TopicLifecycle-discrete, EvidenceHealth-discrete,
  GateAssessment-discrete, LearnerModelEntry-discrete, AgentTurnResult-discrete,
  CurrentWorkState-discrete, Lens-discrete, TopicSummary-discrete,
)

instance abbrev pub TopicRunState-eq : Eq TopicRunState
TopicRunState-eq = record { dec = TopicRunState-discrete }

-- The `lens` property.
unfoldable pub lens : TopicRunState → Lens
lens topic = elim topic.current_lens [
  | none ↦ topic.contract.starting_lens
  | some current ↦ current
]

-- The `open_question_id` property.
unfoldable pub open_question_id : TopicRunState → Option String
open_question_id topic = elim topic.current_agent_turn [
  | none ↦ none
  | some turn ↦ some turn.question_id
]
