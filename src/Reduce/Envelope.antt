-- ===== src/Reduce/Envelope.antt =====
-- xsync_v2/state_machine.py: `_valid_event_payload_shape` and `_valid_committed_event_envelope`.
use x_sync.Prelude.{
  Bool, Error, Result, false, guard, is_distinct, is_empty, is_none, leb, not, true, when, ◌&&◌,
}
use x_sync.Domain.{
  CommittedDialogueEvent, DialogueEventPayload, DialogueState, ExportCompleted, ExportRequested,
  PauseCause, TopicCompleted, TopicPaused, TopicStarted, WorkDeadLettered, WorkRecoveryAction-eq,
  WorkRequeued, agent_turn_committed, candidates_presented, export_completed, export_requested,
  help_requested, learner_turn_submitted, lens_changed, session_deactivation_prepared,
  session_started, topic_clarification_answered, topic_clarification_requested, topic_completed,
  topic_exploration_requested, topic_paused, topic_resumed, topic_selection_submitted,
  topic_started, topic_switch_requested, work_dead_lettered, work_failed, work_recovery_requested,
  work_requeued,
}
use x_sync.Identity.{is_canonical_trigger_binding}
use x_sync.Text.{is_protocol_id, is_sha256_digest, valid_text}
use x_sync.Validate.Model.{valid_agent_turn_shape, valid_topic_summary}
use x_sync.Validate.Shapes.{
  valid_candidates_shape, valid_contract_shape, valid_evidence_shape, valid_work_failure,
}

unfoldable pub valid_paused_shape : TopicPaused → PauseCause → Bool
valid_paused_shape payload PauseCause.user =
    is_none payload.handoff_id && is_none payload.fence_generation
valid_paused_shape payload PauseCause.session_deactivation =
    when false valid_text payload.handoff_id && when false (leb 1) payload.fence_generation

unfoldable pub valid_completed_shape : TopicCompleted → Bool
valid_completed_shape p =
    valid_text p.topic_run_id
    && valid_topic_summary p.summary
    && is_canonical_trigger_binding p.trigger
    && valid_evidence_shape p.evidence
    && is_sha256_digest p.evidence_fingerprint

unfoldable pub valid_started_shape : TopicStarted → Bool
valid_started_shape p =
    valid_contract_shape p.contract
    && valid_evidence_shape p.evidence
    && is_canonical_trigger_binding p.initial_trigger
    && when true valid_text p.selected_candidate
    && when true is_canonical_trigger_binding p.selection_trigger

unfoldable pub valid_requeued_shape : WorkRequeued → Bool
valid_requeued_shape p =
    valid_text p.failed_work_id
    && is_canonical_trigger_binding p.failed_trigger
    && leb 1 p.failed_attempt
    && valid_work_failure p.failure
    && is_canonical_trigger_binding p.next_trigger
    && leb 1 p.next_attempt

unfoldable pub valid_dead_lettered_shape : WorkDeadLettered → Bool
valid_dead_lettered_shape p =
    valid_text p.failed_work_id
    && is_canonical_trigger_binding p.failed_trigger
    && leb 1 p.failed_attempt
    && valid_work_failure p.failure
    && not (is_empty p.allowed_actions)
    && is_distinct p.allowed_actions

unfoldable pub valid_requested_shape : ExportRequested → Bool
valid_requested_shape p =
    is_protocol_id p.export_id
    && leb 1 p.export_sequence
    && is_protocol_id p.intent_id
    && valid_text p.requested_at
    && is_sha256_digest p.payload_digest

unfoldable pub valid_export_completed_shape : ExportCompleted → Bool
valid_export_completed_shape p =
    is_protocol_id p.export_id
    && leb 1 p.export_sequence
    && is_protocol_id p.intent_id
    && valid_text p.completed_at
    && is_protocol_id p.json_path
    && is_sha256_digest p.json_digest
    && is_protocol_id p.markdown_path
    && is_sha256_digest p.markdown_digest
    && is_sha256_digest p.freshness_overlay_digest

unfoldable pub valid_event_payload_shape : DialogueEventPayload → Bool
valid_event_payload_shape (session_started p) = is_canonical_trigger_binding p.candidate_trigger
valid_event_payload_shape (candidates_presented p) =
    valid_candidates_shape p.candidates && is_canonical_trigger_binding p.trigger
valid_event_payload_shape (topic_selection_submitted p) =
    valid_text p.candidate && is_canonical_trigger_binding p.next_trigger
valid_event_payload_shape (topic_clarification_requested p) =
    valid_text p.question_id
    && valid_text p.question
    && is_canonical_trigger_binding p.selection_trigger
valid_event_payload_shape (topic_clarification_answered p) =
    valid_text p.question_id && valid_text p.answer && is_canonical_trigger_binding p.next_trigger
valid_event_payload_shape (lens_changed p) =
    valid_text p.topic_run_id && is_canonical_trigger_binding p.next_trigger
valid_event_payload_shape (help_requested p) =
    valid_text p.topic_run_id
    && is_protocol_id p.question_id
    && is_canonical_trigger_binding p.next_trigger
valid_event_payload_shape (topic_completed p) = valid_completed_shape p
valid_event_payload_shape (topic_started p) = valid_started_shape p
valid_event_payload_shape (agent_turn_committed p) =
    valid_agent_turn_shape p.result
    && is_canonical_trigger_binding p.trigger
    && valid_evidence_shape p.evidence
valid_event_payload_shape (learner_turn_submitted p) =
    valid_text p.question_id
    && valid_text p.learner_turn_id
    && valid_text p.text
    && is_canonical_trigger_binding p.next_trigger
valid_event_payload_shape (topic_paused p) =
    valid_text p.topic_run_id && valid_paused_shape p p.cause
valid_event_payload_shape (topic_switch_requested p) =
    valid_text p.topic_run_id && is_canonical_trigger_binding p.candidate_trigger
valid_event_payload_shape (session_deactivation_prepared p) =
    valid_text p.handoff_id
    && leb 1 p.fence_generation
    && when true is_canonical_trigger_binding p.superseded_trigger
valid_event_payload_shape (topic_exploration_requested p) =
    is_canonical_trigger_binding p.candidate_trigger
valid_event_payload_shape (topic_resumed p) =
    valid_text p.topic_run_id
    && when true is_canonical_trigger_binding p.resumed_trigger
    && valid_evidence_shape p.evidence
valid_event_payload_shape (work_failed p) =
    valid_text p.work_id
    && is_canonical_trigger_binding p.trigger
    && leb 1 p.attempt
    && valid_work_failure p.failure
valid_event_payload_shape (work_requeued p) = valid_requeued_shape p
valid_event_payload_shape (work_dead_lettered p) = valid_dead_lettered_shape p
valid_event_payload_shape (work_recovery_requested p) =
    valid_text p.dead_work_id
    && is_canonical_trigger_binding p.next_trigger
    && valid_evidence_shape p.evidence
valid_event_payload_shape (export_requested p) = valid_requested_shape p
valid_event_payload_shape (export_completed p) = valid_export_completed_shape p

unfoldable pub valid_committed_event_envelope : CommittedDialogueEvent → Bool
valid_committed_event_envelope event =
    is_protocol_id event.event_id
    && leb 1 event.sequence
    && is_protocol_id event.command_id
    && valid_event_payload_shape event.payload

-- `replace(state, sequence=event.sequence, conversation_version=event.to_version)`.
unfoldable pub advance : DialogueState → CommittedDialogueEvent → DialogueState
advance state event = record state {
  sequence = event.sequence;
  conversation_version = event.to_version;
}

abbrev pub require : Bool → Result (Unit {0})
require condition = guard condition Error.illegal_event_transition
