-- ===== src/Domain/Events.antt =====
-- The event payloads of xsync_v2/domain.py, the union of their classes, and the event records.
use x_sync.Prelude.{ℕ, String, Bool, Option, List}
use x_sync.Domain.Enums.{Lens, WorkRecoveryAction, PauseCause}
use x_sync.Domain.Work.{TriggerBinding, WorkFailure, EvidenceCheck}
use x_sync.Domain.Topic.{TopicContract, AgentTurnResult, TopicSummary}

pub record SessionStarted : Type 0 where
  pub candidate_trigger : TriggerBinding

pub record CandidatesPresented : Type 0 where
  pub candidates : List String
  pub trigger : TriggerBinding

pub record TopicSelectionSubmitted : Type 0 where
  pub candidate : String
  pub next_trigger : TriggerBinding

pub record TopicClarificationRequested : Type 0 where
  pub question_id : String
  pub question : String
  pub selection_trigger : TriggerBinding

pub record TopicClarificationAnswered : Type 0 where
  pub question_id : String
  pub answer : String
  pub next_trigger : TriggerBinding

pub record LensChanged : Type 0 where
  pub topic_run_id : String
  pub lens : Lens
  pub next_trigger : TriggerBinding

pub record HelpRequested : Type 0 where
  pub topic_run_id : String
  pub question_id : String
  pub next_trigger : TriggerBinding

pub record TopicCompleted : Type 0 where
  pub topic_run_id : String
  pub summary : TopicSummary
  pub trigger : TriggerBinding
  pub evidence : EvidenceCheck
  pub as_of_sequence : ℕ
  pub evidence_fingerprint : String

pub record TopicStarted : Type 0 where
  pub contract : TopicContract
  pub evidence : EvidenceCheck
  pub initial_trigger : TriggerBinding
  pub selected_candidate : Option String
  pub selection_trigger : Option TriggerBinding

pub record AgentTurnCommitted : Type 0 where
  pub result : AgentTurnResult
  pub trigger : TriggerBinding
  pub evidence : EvidenceCheck

pub record LearnerTurnSubmitted : Type 0 where
  pub question_id : String
  pub learner_turn_id : String
  pub text : String
  pub next_trigger : TriggerBinding

pub record TopicPaused : Type 0 where
  pub topic_run_id : String
  pub cause : PauseCause
  pub handoff_id : Option String
  pub fence_generation : Option ℕ

pub record TopicSwitchRequested : Type 0 where
  pub topic_run_id : String
  pub candidate_trigger : TriggerBinding

pub record TopicExplorationRequested : Type 0 where
  pub candidate_trigger : TriggerBinding

pub record SessionDeactivationPrepared : Type 0 where
  pub handoff_id : String
  pub fence_generation : ℕ
  pub superseded_trigger : Option TriggerBinding

pub record TopicResumed : Type 0 where
  pub topic_run_id : String
  pub requires_reground : Bool
  pub resumed_trigger : Option TriggerBinding
  pub evidence : EvidenceCheck

pub record WorkFailed : Type 0 where
  pub work_id : String
  pub trigger : TriggerBinding
  pub attempt : ℕ
  pub failure : WorkFailure

pub record WorkRequeued : Type 0 where
  pub failed_work_id : String
  pub failed_trigger : TriggerBinding
  pub failed_attempt : ℕ
  pub failure : WorkFailure
  pub next_trigger : TriggerBinding
  pub next_attempt : ℕ

pub record WorkDeadLettered : Type 0 where
  pub failed_work_id : String
  pub failed_trigger : TriggerBinding
  pub failed_attempt : ℕ
  pub failure : WorkFailure
  pub allowed_actions : List WorkRecoveryAction

pub record WorkRecoveryRequested : Type 0 where
  pub dead_work_id : String
  pub action : WorkRecoveryAction
  pub next_trigger : TriggerBinding
  pub evidence : EvidenceCheck

pub record ExportRequested : Type 0 where
  pub export_id : String
  pub export_sequence : ℕ
  pub intent_id : String
  pub as_of_event_sequence : ℕ
  pub requested_at : String
  pub payload_digest : String

pub record ExportCompleted : Type 0 where
  pub export_id : String
  pub export_sequence : ℕ
  pub intent_id : String
  pub completed_at : String
  pub json_path : String
  pub json_digest : String
  pub markdown_path : String
  pub markdown_digest : String
  pub freshness_overlay_digest : String

pub data DialogueEventPayload : Type 0 where
  session_started : SessionStarted → DialogueEventPayload
  candidates_presented : CandidatesPresented → DialogueEventPayload
  topic_selection_submitted : TopicSelectionSubmitted → DialogueEventPayload
  topic_clarification_requested : TopicClarificationRequested → DialogueEventPayload
  topic_clarification_answered : TopicClarificationAnswered → DialogueEventPayload
  lens_changed : LensChanged → DialogueEventPayload
  help_requested : HelpRequested → DialogueEventPayload
  topic_completed : TopicCompleted → DialogueEventPayload
  topic_started : TopicStarted → DialogueEventPayload
  agent_turn_committed : AgentTurnCommitted → DialogueEventPayload
  learner_turn_submitted : LearnerTurnSubmitted → DialogueEventPayload
  topic_paused : TopicPaused → DialogueEventPayload
  topic_switch_requested : TopicSwitchRequested → DialogueEventPayload
  topic_exploration_requested : TopicExplorationRequested → DialogueEventPayload
  session_deactivation_prepared : SessionDeactivationPrepared → DialogueEventPayload
  topic_resumed : TopicResumed → DialogueEventPayload
  work_failed : WorkFailed → DialogueEventPayload
  work_requeued : WorkRequeued → DialogueEventPayload
  work_dead_lettered : WorkDeadLettered → DialogueEventPayload
  work_recovery_requested : WorkRecoveryRequested → DialogueEventPayload
  export_requested : ExportRequested → DialogueEventPayload
  export_completed : ExportCompleted → DialogueEventPayload

pub record PendingDialogueEvent : Type 0 where
  pub command_id : String
  pub payload : DialogueEventPayload

pub record CommittedDialogueEvent : Type 0 where
  pub event_id : String
  pub sequence : ℕ
  pub from_version : ℕ
  pub to_version : ℕ
  pub command_id : String
  pub payload : DialogueEventPayload
