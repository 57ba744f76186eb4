-- ===== src/Validate/Model.antt =====
-- xsync_v2/state_machine.py: learner-model entries, gate assessments, agent turns and summaries.
use x_sync.Prelude.{
  Bool, List, Option, String, String-eq, [], all, has, if◌then◌else◌, is_distinct, is_empty,
  is_some, is_subset, keep, length, map, none, not, some, true, when, ℕ-eq, ◌!=◌, ◌&&◌, ◌++◌, ◌==◌,
  ◌||◌, ◌∷◌,
}
use x_sync.Domain.{
  AgentTurnResult, EvidenceCheck, GateAssessment, GateId-eq, GateStatus, GateStatus-eq,
  InsightKind-eq, InsightProvenance, InsightProvenance-eq, InsightStatus, InsightStatus-eq,
  LearnerModelEntry, TopicContract, TopicSummary,
}
use x_sync.Rules.{model_status_transition, required_gates}
use x_sync.Text.{is_protocol_id, valid_text}
use x_sync.Validate.Shapes.{is_same_set, valid_evidence}

unfoldable pub valid_model_entry_shape : LearnerModelEntry → Bool
valid_model_entry_shape entry =
    valid_text entry.entry_id
    && valid_text entry.statement
    && all valid_text entry.source_turn_ids
    && all valid_text entry.evidence_refs

unfoldable pub valid_model_entry : TopicContract → LearnerModelEntry → List String → Bool
valid_model_entry contract entry known_turn_ids =
    valid_model_entry_shape entry
    && is_subset entry.source_turn_ids known_turn_ids
    && is_subset entry.evidence_refs contract.evidence_refs
    && ((entry.provenance != InsightProvenance.agent_inferred)
        || (entry.status == InsightStatus.working_model))
    && ((entry.status != InsightStatus.confirmed)
        || (((entry.provenance == InsightProvenance.learner_explicit)
              || (entry.provenance == InsightProvenance.jointly_confirmed))
            && not (is_empty entry.source_turn_ids)
            && not (is_empty entry.evidence_refs)))

unfoldable pub valid_gate_assessment_shape : GateAssessment → Bool
valid_gate_assessment_shape item =
    all valid_text item.source_turn_ids && all valid_text item.evidence_refs

unfoldable pub valid_gate_assessment : TopicContract → GateAssessment → List String → Bool
valid_gate_assessment contract item known_turn_ids =
    valid_gate_assessment_shape item
    && is_subset item.source_turn_ids known_turn_ids
    && is_subset item.evidence_refs contract.evidence_refs
    && ((item.status != GateStatus.supported)
        || (not (is_empty item.source_turn_ids) && not (is_empty item.evidence_refs)))

unfoldable pub valid_agent_turn_shape : AgentTurnResult → Bool
valid_agent_turn_shape result =
    valid_text result.heard
    && valid_text result.one_step_further
    && valid_text result.question_id
    && valid_text result.question
    && all valid_model_entry_shape result.learner_model_delta
    && all valid_gate_assessment_shape result.gate_assessments
    && all valid_text result.evidence_refs

unfoldable pub valid_topic_summary : TopicSummary → Bool
valid_topic_summary summary =
    valid_text summary.takeaway
    && not (is_empty summary.confirmed_entry_ids)
    && all is_protocol_id summary.confirmed_entry_ids
    && is_distinct summary.confirmed_entry_ids
    && all valid_text summary.open_questions
    && is_distinct summary.open_questions
    && valid_text summary.next_suggestion

abbrev pub entry_ids : List LearnerModelEntry → List String
entry_ids = map (λ (entry : LearnerModelEntry). entry.entry_id)

-- The gate ids of the assessments are the three required ones, each once.
unfoldable pub covers_gates : List GateAssessment → Bool
covers_gates gates =
    let gate_ids = map (λ (item : GateAssessment). item.gate_id) gates in
    (length gate_ids == length required_gates) && is_same_set gate_ids required_gates

unfoldable pub valid_agent_turn :
    TopicContract → AgentTurnResult → EvidenceCheck → List String → Bool
valid_agent_turn contract turn evidence known_turn_ids =
    valid_agent_turn_shape turn
    && all (λ entry. valid_model_entry contract entry known_turn_ids) turn.learner_model_delta
    && is_distinct (entry_ids turn.learner_model_delta)
    && all (λ item. valid_gate_assessment contract item known_turn_ids) turn.gate_assessments
    && valid_evidence evidence
    && not (is_empty turn.evidence_refs)
    && is_distinct turn.evidence_refs
    && is_subset turn.evidence_refs contract.evidence_refs
    && covers_gates turn.gate_assessments

-- `{entry.entry_id: entry for entry in entries}.get(entry_id)`: the last entry of an id counts.
unfoldable pub by_id : List LearnerModelEntry → String → Option LearnerModelEntry
by_id [] entry_id = none
by_id (entry ∷ entries) entry_id =
    let later = by_id entries entry_id in
    if is_some later then later else if entry.entry_id == entry_id then some entry else none

unfoldable pub valid_model_update : LearnerModelEntry → LearnerModelEntry → Bool
valid_model_update before update =
    (update.kind == before.kind)
    && (update.statement == before.statement)
    && is_subset before.source_turn_ids update.source_turn_ids
    && is_subset before.evidence_refs update.evidence_refs
    && model_status_transition before.status update.status
    && ((update.provenance == before.provenance)
        || (((before.provenance == InsightProvenance.agent_inferred)
              || (before.provenance == InsightProvenance.learner_explicit))
            && (update.provenance == InsightProvenance.jointly_confirmed)))

unfoldable pub valid_model_updates : List LearnerModelEntry → List LearnerModelEntry → Bool
valid_model_updates current updates =
    all
      (λ update.
        when true (λ before. valid_model_update before update) (by_id current update.entry_id))
      updates

-- `by_id.get(entry.entry_id, entry)` over the updates.
unfoldable pub replaced_by : List LearnerModelEntry → LearnerModelEntry → LearnerModelEntry
replaced_by updates entry = elim (by_id updates entry.entry_id) [
  | none ↦ entry
  | some update ↦ update
]

unfoldable pub apply_model_updates :
    List LearnerModelEntry → List LearnerModelEntry → List LearnerModelEntry
apply_model_updates current updates =
    map (replaced_by updates) current
    ++ keep (λ (entry : LearnerModelEntry). not (has entry.entry_id (entry_ids current))) updates
