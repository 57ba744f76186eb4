-- ===== src/Validate/Topic.antt =====
-- xsync_v2/state_machine.py: `_valid_topic_state`, one definition for each group of its tests.
use x_sync.Prelude.{
  Bool, List, List-eq, Option, Option-eq, String, String-eq, [], all, false, has, if◌then◌else◌,
  is_distinct, is_empty, is_none, is_some, none, some, true, when, ℕ, ◌!=◌, ◌&&◌, ◌==◌, ◌||◌, ◌∷◌,
}
use x_sync.Domain.{
  AgentTurnResult, CurrentWorkState, EvidenceCheck, GateAssessment-eq, LearnerModelEntry-eq,
  TopicLifecycle, TopicLifecycle-eq, TopicRunState, WorkRecoveryAction, WorkRecoveryAction-eq,
  WorkStatus, WorkStatus-eq,
}
use x_sync.Identity.{Sha256}
use x_sync.Text.{valid_text}
use x_sync.Validate.Model.{
  covers_gates, entry_ids, valid_agent_turn, valid_gate_assessment, valid_model_entry,
  valid_topic_summary,
}
use x_sync.Validate.Shapes.{valid_contract, valid_evidence, valid_trigger}
use x_sync.Validate.Work.{valid_current_work}

-- `EvidenceCheck(topic.evidence_health, topic.evidence_digest, topic.exact_recheck_fingerprint)`.
unfoldable pub topic_evidence : TopicRunState → EvidenceCheck
topic_evidence topic = record {
  health = topic.evidence_health;
  evidence_digest = topic.evidence_digest;
  exact_recheck_fingerprint = topic.exact_recheck_fingerprint;
}

-- `turn_ids[-1]`.
unfoldable pub last_id : List String → Option String
last_id [] = none
last_id (x ∷ []) = some x
last_id (x ∷ y ∷ ys) = last_id (y ∷ ys)

unfoldable pub valid_learner_turns : TopicRunState → Bool
valid_learner_turns topic =
    all valid_text topic.learner_turn_ids
    && is_distinct topic.learner_turn_ids
    && (if is_empty topic.learner_turn_ids
        then is_none topic.last_learner_turn_id && is_none topic.last_learner_text
        else (topic.last_learner_turn_id == last_id topic.learner_turn_ids)
          && when false valid_text topic.last_learner_text)

-- A completed Run has a summary, and any other Run an agent turn or work, and not both.
unfoldable pub valid_lifecycle : TopicRunState → TopicLifecycle → Bool
valid_lifecycle topic TopicLifecycle.completed =
    is_none topic.current_agent_turn
    && is_none topic.work
    && when false valid_topic_summary topic.summary
valid_lifecycle topic _ =
    is_none topic.summary
    && (if is_some topic.current_agent_turn then is_none topic.work else is_some topic.work)

unfoldable pub valid_current_turn : TopicRunState → AgentTurnResult → Bool
valid_current_turn topic turn =
    valid_agent_turn topic.contract turn (topic_evidence topic) topic.learner_turn_ids
    && (turn.gate_assessments == topic.gates)
    && all (λ entry. has entry topic.learner_model) turn.learner_model_delta

-- The statuses that the work of a Run may have, by the lifecycle of the Run.
unfoldable pub valid_work_status : TopicLifecycle → WorkStatus → Bool
valid_work_status TopicLifecycle.active WorkStatus.queued = true
valid_work_status TopicLifecycle.active WorkStatus.failed = true
valid_work_status TopicLifecycle.active WorkStatus.dead_letter = true
valid_work_status TopicLifecycle.active _ = false
valid_work_status TopicLifecycle.paused WorkStatus.superseded = true
valid_work_status TopicLifecycle.paused WorkStatus.dead_letter = true
valid_work_status TopicLifecycle.paused _ = false
valid_work_status TopicLifecycle.completed _ = true

unfoldable pub valid_topic_work : TopicRunState → TopicLifecycle → CurrentWorkState → Bool
valid_topic_work topic expected_lifecycle work =
    valid_trigger work.trigger work.trigger.kind (some topic.contract.contract_digest)
      topic.evidence_digest
    && valid_work_status expected_lifecycle work.status
    && (work.status != WorkStatus.dead_letter
        || (work.allowed_recovery_actions
            == (WorkRecoveryAction.retry ∷ WorkRecoveryAction.reground ∷ [])))

module _ ⦃h : Sha256⦄ where
  unfoldable pub valid_topic_state : TopicRunState → TopicLifecycle → String → ℕ → Bool
  valid_topic_state topic expected_lifecycle session_id observed_sequence =
      (topic.lifecycle == expected_lifecycle)
      && valid_contract topic.contract
      && (topic.topic_run_id == topic.contract.topic_run_id)
      && valid_evidence (topic_evidence topic)
      && when true (λ work. valid_current_work work session_id observed_sequence) topic.work
      && covers_gates topic.gates
      && all (λ item. valid_gate_assessment topic.contract item topic.learner_turn_ids) topic.gates
      && is_distinct (entry_ids topic.learner_model)
      && all (λ item. valid_model_entry topic.contract item topic.learner_turn_ids)
          topic.learner_model
      && valid_learner_turns topic
      && valid_lifecycle topic expected_lifecycle
      && when true (valid_current_turn topic) topic.current_agent_turn
      && when true (valid_topic_work topic expected_lifecycle) topic.work
