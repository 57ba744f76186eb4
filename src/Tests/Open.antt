-- ===== src/Tests/Open.antt =====
-- Opens every definition at once, for the runs that the tests evaluate.
use x_sync.Decide.Export.{
  complete_export_handler, complete_export_on, matching_exports, request_export_handler, single,
  uses_export_ids, valid_completion,
}
use x_sync.Decide.Guards.{
  completion_guard, confirmed_ids, fingerprint, has_kind, has_status, initial_kind, is_bridge,
  is_degraded, is_supported, lens_parent, reground_trigger_matches, same_evidence,
}
use x_sync.Decide.Quiesce.{decide_fenced_quiesce, fences, quiesce_open, valid_quiesce}
use x_sync.Decide.Resume.{
  find_paused, requires_reground, resume_topic_handler, resume_topic_on, resume_work, resumes,
}
use x_sync.Decide.Session.{
  answer_topic_clarification_handler, is_choosing, is_open_clarification,
  present_candidates_handler, request_topic_clarification_handler, select_topic_handler,
  start_session_handler, submit_custom_topic_handler, submit_selection,
}
use x_sync.Decide.Table.{decide, handler, lifecycle_allowed, valid_decision_context}
use x_sync.Decide.Topic.{
  commit_agent_turn_handler, commit_agent_turn_on, is_durable_start, is_legacy_start,
  pause_topic_handler, start_topic_handler, submit_turn_handler, submit_turn_on,
}
use x_sync.Decide.Turn.{
  complete_topic_handler, complete_topic_on, explore_topics_handler, request_help_handler,
  request_help_on, set_lens_handler, set_lens_on, switch_topic_handler,
}
use x_sync.Decide.Work.{
  active_target, current_nonterminal_work, dead_lettered_event, dead_work_target, failed_event,
  holds_dead_work, is_dead_work, is_nonterminal, nonterminal, only, paused_target,
  recover_work_handler, recover_work_on, recovers, report_work_failure_handler,
  report_work_failure_on, requeued_event, session_target,
}
use x_sync.Decision.{accept}
use x_sync.Domain.{
  AgentTurnResult-discrete, ConversationPhase-discrete, CurrentWorkState-discrete,
  EvidenceHealth-discrete, ExportStatus-discrete, GateAssessment-discrete, GateId-discrete,
  GateRequirement-discrete, GateStatus-discrete, InsightKind-discrete, InsightProvenance-discrete,
  InsightStatus-discrete, LearnerModelEntry-discrete, Lens-discrete, PauseCause-discrete,
  QuestionIntent-discrete, SessionLifecycle-discrete, TaskScope-discrete,
  TopicClarification-discrete, TopicContract-discrete, TopicLifecycle-discrete,
  TopicRunState-discrete, TopicSummary-discrete, TriggerBinding-discrete, TriggerKind-discrete,
  WorkFailure-discrete, WorkFailureCategory-discrete, WorkRecoveryAction-discrete,
  WorkStatus-discrete, command_id, lens, open_question_id, session_unresolved_trigger,
}
use x_sync.Identity.{
  canonical_identity, decimal, decimal_loop, derive_canonical_work_id, is_canonical_trigger_binding,
  json_optional, json_string, kind_value,
}
use x_sync.Lease.Clock.{accept_runtime, now, read_value, verify_runtime}
use x_sync.Lease.Commit.{
  commit, committed_transaction, concurrent_receipt, provisional_transaction, publish,
  receipt_of_request, replay_of, replay_receipt,
}
use x_sync.Lease.Current.{
  canonical_work_attempt, current_runnable, derive_authoritative_work, is_current_session,
  load_current_work, load_snapshot, present_work, runnable_of,
}
use x_sync.Lease.Encode.{
  check_request, decode_transaction, decode_work, encode_transaction, transaction_hash_of,
  transaction_tree, valid_transaction_record,
}
use x_sync.Lease.Exhaustion.{
  assert_exhausted_for_work, assert_exhausted_last, exhaustion_proof, proof_of,
}
use x_sync.Lease.History.{
  acquired_for, next_loop, valid_claim, valid_from, valid_history, valid_identity, valid_link,
  valid_operation, valid_reclaim, valid_renewal,
}
use x_sync.Lease.Model.{LeaseExhaustionProof-discrete, LeaseOperation-discrete}
use x_sync.Lease.Publish.{
  assert_publishable, assert_publishable_for_work, assert_publishable_last, fence_matches,
}
use x_sync.Lease.Reclaim.{
  exhausted_outcome, reclaim, reclaim_current, reclaim_exhausted, reclaim_last,
}
use x_sync.Lease.Requests.{
  same_claim, valid_claim_request, valid_duration, valid_exhaustion_proof, valid_lease,
  valid_publish_fence, valid_reclaim_request, valid_renew_request, valid_tenure,
}
use x_sync.Lease.Store.{
  assert_reclaim_eligible, claim, claim_fresh, has_claim, has_owner, lease_is_active, refuse_leased,
  renew, renew_fresh, renew_last,
}
use x_sync.Lease.Terms.{
  acquired_lease, assert_claim_binding, assert_commit_clock, assert_previous_clock,
  assert_renewable, current_tenure_renewals, leading_renewals, lease_at_commit, new_lease,
  reclaimed_lease, reclaims_of, renewed_lease, reversed,
}
use x_sync.Prelude.{
  Bool-discrete, List-discrete, Option-discrete, String-discrete, all, any, has, is_distinct,
  is_subset, keep, ℕ_discrete,
}
use x_sync.Reduce.Envelope.{
  advance, valid_committed_event_envelope, valid_completed_shape, valid_dead_lettered_shape,
  valid_event_payload_shape, valid_export_completed_shape, valid_paused_shape,
  valid_requested_shape, valid_requeued_shape, valid_started_shape,
}
use x_sync.Reduce.Export.{
  complete_record, exports_allowed, is_completable, reduce_export_completed,
  reduce_export_requested, requested_record,
}
use x_sync.Reduce.Pause.{
  completed_run, paused_run, paused_work, reduce_completed_on, reduce_paused_on,
  reduce_session_deactivation_prepared, reduce_switch_on, reduce_topic_completed,
  reduce_topic_exploration_requested, reduce_topic_paused, reduce_topic_switch_requested,
  valid_cause, valid_source,
}
use x_sync.Reduce.Recover.{
  recover_active, recover_paused, recover_session, recovered_topic, reduce_recovery,
  reduce_recovery_on, reduce_work_recovery_requested,
}
use x_sync.Reduce.Resume.{
  matching_runs, other_runs, reactivated, reduce_kept, reduce_reground, reduce_resumed_on,
  reduce_resumed_work, reduce_topic_resumed, regrounded, resumed_state, stale_entry, stale_gate,
}
use x_sync.Reduce.Session.{
  reduce_candidates_presented, reduce_session_started, reduce_topic_clarification_answered,
  reduce_topic_clarification_requested, reduce_topic_selection_submitted,
}
use x_sync.Reduce.Step.{reduce, reduce_all, transition}
use x_sync.Reduce.Topic.{
  is_durable_started, is_legacy_started, new_topic, reduce_agent_turn_committed,
  reduce_agent_turn_on, reduce_topic_started, unexplored, with_turn,
}
use x_sync.Reduce.Turn.{
  reduce_help_on, reduce_help_requested, reduce_learner_turn_on, reduce_learner_turn_submitted,
  reduce_lens_changed, reduce_lens_on, with_learner_turn,
}
use x_sync.Reduce.Work.{
  dead_work, failed_work, holds_work, reduce_work_dead_lettered, reduce_work_failed,
  reduce_work_requeued, replace_in, replace_paused_work, replace_work,
}
use x_sync.Registry.Build.{
  committed_registry_event, committed_registry_events, committed_registry_transaction, draft_event,
  draft_transaction, payload_generation,
}
use x_sync.Registry.Decide.{
  begin_with_target, complete_pending, decide_begin, decide_command, decide_create, decide_fresh,
  decide_registry, decide_seen, initial_registry_state, proof_matches_pending, receipt_for_command,
  started_handoff, used_handoff, valid_command, valid_command_body,
}
use x_sync.Registry.Model.{
  ActivateTarget-discrete, ActivationKind-discrete, DialogueRegistrationStatus-discrete,
  RegisteredDialogue-discrete,
}
use x_sync.Registry.Reduce.{
  apply_activated, apply_deactivated, apply_event, apply_events, apply_started, reduce_events,
  reduce_registry, replace_dialogue,
}
use x_sync.Registry.Transaction.{
  begin_context, completes_pending, exact_receipt_match, expected_event_generation, is_open_target,
  is_replay, numbered_from, same_command, same_transaction, valid_activated, valid_event_envelope,
  valid_payload, valid_transaction_shape, validate_event_generation, validate_events,
  validate_fresh, validate_generations, validate_transaction,
}
use x_sync.Registry.Valid.{
  dialogue_by_id, is_active, is_deactivating, receipts_end, valid_currency, valid_handoff,
  valid_pending, valid_proof, valid_receipt, valid_receipts, valid_registered, valid_registration,
  valid_registry_state, valid_settled, valid_target,
}
use x_sync.Rules.{conversation_version_delta, is_publishable, is_retryable, model_status_transition}
use x_sync.Session.{
  batch_error, chain_error, committed_event, committed_events, failure_error,
  initial_dialogue_state, is_failure_payload, link_error, resolves,
}
use x_sync.Text.{
  after, is_alnum, is_hex64, is_hex_char, is_id_char, is_optional_protocol_id,
  is_optional_sha256_digest, is_protocol_id, is_sha256_digest, is_space, lstrip,
  protocol_id_pattern, sha256_digest_pattern, strip, valid_text,
}
use x_sync.Validate.Model.{
  apply_model_updates, by_id, covers_gates, replaced_by, valid_agent_turn, valid_agent_turn_shape,
  valid_gate_assessment, valid_gate_assessment_shape, valid_model_entry, valid_model_entry_shape,
  valid_model_update, valid_model_updates, valid_topic_summary,
}
use x_sync.Validate.Shapes.{
  has_completion, is_same_set, is_truthy, lacks_completion, valid_candidates,
  valid_candidates_shape, valid_contract, valid_contract_shape, valid_evidence,
  valid_evidence_shape, valid_export_record, valid_trigger, valid_work_failure,
}
use x_sync.Validate.State.{
  active_work, all_topic_ids, counts_from, has_open_turn, holds_one_work, is_answerable,
  is_dead_status, is_valid_state, is_waiting_status, valid_clarification, valid_clarification_place,
  valid_ended, valid_export_ids, valid_fields, valid_new, valid_phase, valid_selection,
  valid_session_kind, valid_session_lifecycle, valid_session_work, valid_topic_ids, valid_topics,
  validate_state,
}
use x_sync.Validate.Topic.{
  last_id, topic_evidence, valid_current_turn, valid_learner_turns, valid_lifecycle,
  valid_topic_state, valid_topic_work, valid_work_status,
}
use x_sync.Validate.Work.{
  allowed_recovery_actions, automatic_retry_allowed, is_expected_id, matching_trigger,
  queued_work_from_event, retry_trigger_matches, valid_current_work, valid_status,
}
use x_sync.Work.{
  binding_tree, derive_queued, derive_runnable_work, derive_waiting, derive_work_id,
  has_runnable_work_id, no_work, origin_is_valid, origin_matches, provisional_work, queued_of,
  valid_work_shape, validate_runnable_work, work_binding_digest, work_of_topic,
}

unfoldable pub model : Unit {0}
unfolding complete_export_handler complete_export_on matching_exports request_export_handler single
    uses_export_ids valid_completion completion_guard confirmed_ids fingerprint has_kind has_status
    initial_kind is_bridge is_degraded is_supported lens_parent reground_trigger_matches
    same_evidence decide_fenced_quiesce fences quiesce_open valid_quiesce find_paused
    requires_reground resume_topic_handler resume_topic_on resume_work resumes
    answer_topic_clarification_handler is_choosing is_open_clarification present_candidates_handler
    request_topic_clarification_handler select_topic_handler start_session_handler
    submit_custom_topic_handler submit_selection decide handler lifecycle_allowed
    valid_decision_context commit_agent_turn_handler commit_agent_turn_on is_durable_start
    is_legacy_start pause_topic_handler start_topic_handler submit_turn_handler submit_turn_on
    complete_topic_handler complete_topic_on explore_topics_handler request_help_handler
    request_help_on set_lens_handler set_lens_on switch_topic_handler active_target
    current_nonterminal_work dead_lettered_event dead_work_target failed_event holds_dead_work
    is_dead_work is_nonterminal nonterminal only paused_target recover_work_handler recover_work_on
    recovers report_work_failure_handler report_work_failure_on requeued_event session_target accept
    AgentTurnResult-discrete ConversationPhase-discrete CurrentWorkState-discrete
    EvidenceHealth-discrete ExportStatus-discrete GateAssessment-discrete GateId-discrete
    GateRequirement-discrete GateStatus-discrete InsightKind-discrete InsightProvenance-discrete
    InsightStatus-discrete LearnerModelEntry-discrete Lens-discrete PauseCause-discrete
    QuestionIntent-discrete SessionLifecycle-discrete TaskScope-discrete TopicClarification-discrete
    TopicContract-discrete TopicLifecycle-discrete TopicRunState-discrete TopicSummary-discrete
    TriggerBinding-discrete TriggerKind-discrete WorkFailure-discrete WorkFailureCategory-discrete
    WorkRecoveryAction-discrete WorkStatus-discrete command_id lens open_question_id
    session_unresolved_trigger canonical_identity decimal decimal_loop derive_canonical_work_id
    is_canonical_trigger_binding json_optional json_string kind_value accept_runtime now read_value
    verify_runtime commit committed_transaction concurrent_receipt provisional_transaction publish
    receipt_of_request replay_of replay_receipt canonical_work_attempt current_runnable
    derive_authoritative_work is_current_session load_current_work load_snapshot present_work
    runnable_of check_request decode_transaction decode_work encode_transaction transaction_hash_of
    transaction_tree valid_transaction_record assert_exhausted_for_work assert_exhausted_last
    exhaustion_proof proof_of acquired_for next_loop valid_claim valid_from valid_history
    valid_identity valid_link valid_operation valid_reclaim valid_renewal
    LeaseExhaustionProof-discrete LeaseOperation-discrete assert_publishable
    assert_publishable_for_work assert_publishable_last fence_matches exhausted_outcome reclaim
    reclaim_current reclaim_exhausted reclaim_last same_claim valid_claim_request valid_duration
    valid_exhaustion_proof valid_lease valid_publish_fence valid_reclaim_request valid_renew_request
    valid_tenure assert_reclaim_eligible claim claim_fresh has_claim has_owner lease_is_active
    refuse_leased renew renew_fresh renew_last acquired_lease assert_claim_binding
    assert_commit_clock assert_previous_clock assert_renewable current_tenure_renewals
    leading_renewals lease_at_commit new_lease reclaimed_lease reclaims_of renewed_lease reversed
    Bool-discrete List-discrete Option-discrete String-discrete all any has is_distinct is_subset
    keep ℕ_discrete advance valid_committed_event_envelope valid_completed_shape
    valid_dead_lettered_shape valid_event_payload_shape valid_export_completed_shape
    valid_paused_shape valid_requested_shape valid_requeued_shape valid_started_shape
    complete_record exports_allowed is_completable reduce_export_completed reduce_export_requested
    requested_record completed_run paused_run paused_work reduce_completed_on reduce_paused_on
    reduce_session_deactivation_prepared reduce_switch_on reduce_topic_completed
    reduce_topic_exploration_requested reduce_topic_paused reduce_topic_switch_requested valid_cause
    valid_source recover_active recover_paused recover_session recovered_topic reduce_recovery
    reduce_recovery_on reduce_work_recovery_requested matching_runs other_runs reactivated
    reduce_kept reduce_reground reduce_resumed_on reduce_resumed_work reduce_topic_resumed
    regrounded resumed_state stale_entry stale_gate reduce_candidates_presented
    reduce_session_started reduce_topic_clarification_answered reduce_topic_clarification_requested
    reduce_topic_selection_submitted reduce reduce_all transition is_durable_started
    is_legacy_started new_topic reduce_agent_turn_committed reduce_agent_turn_on
    reduce_topic_started unexplored with_turn reduce_help_on reduce_help_requested
    reduce_learner_turn_on reduce_learner_turn_submitted reduce_lens_changed reduce_lens_on
    with_learner_turn dead_work failed_work holds_work reduce_work_dead_lettered reduce_work_failed
    reduce_work_requeued replace_in replace_paused_work replace_work committed_registry_event
    committed_registry_events committed_registry_transaction draft_event draft_transaction
    payload_generation begin_with_target complete_pending decide_begin decide_command decide_create
    decide_fresh decide_registry decide_seen initial_registry_state proof_matches_pending
    receipt_for_command started_handoff used_handoff valid_command valid_command_body
    ActivateTarget-discrete ActivationKind-discrete DialogueRegistrationStatus-discrete
    RegisteredDialogue-discrete apply_activated apply_deactivated apply_event apply_events
    apply_started reduce_events reduce_registry replace_dialogue begin_context completes_pending
    exact_receipt_match expected_event_generation is_open_target is_replay numbered_from
    same_command same_transaction valid_activated valid_event_envelope valid_payload
    valid_transaction_shape validate_event_generation validate_events validate_fresh
    validate_generations validate_transaction dialogue_by_id is_active is_deactivating receipts_end
    valid_currency valid_handoff valid_pending valid_proof valid_receipt valid_receipts
    valid_registered valid_registration valid_registry_state valid_settled valid_target
    conversation_version_delta is_publishable is_retryable model_status_transition batch_error
    chain_error committed_event committed_events failure_error initial_dialogue_state
    is_failure_payload link_error resolves after is_alnum is_hex64 is_hex_char is_id_char
    is_optional_protocol_id is_optional_sha256_digest is_protocol_id is_sha256_digest is_space
    lstrip protocol_id_pattern sha256_digest_pattern strip valid_text apply_model_updates by_id
    covers_gates replaced_by valid_agent_turn valid_agent_turn_shape valid_gate_assessment
    valid_gate_assessment_shape valid_model_entry valid_model_entry_shape valid_model_update
    valid_model_updates valid_topic_summary has_completion is_same_set is_truthy lacks_completion
    valid_candidates valid_candidates_shape valid_contract valid_contract_shape valid_evidence
    valid_evidence_shape valid_export_record valid_trigger valid_work_failure active_work
    all_topic_ids counts_from has_open_turn holds_one_work is_answerable is_dead_status
    is_valid_state is_waiting_status valid_clarification valid_clarification_place valid_ended
    valid_export_ids valid_fields valid_new valid_phase valid_selection valid_session_kind
    valid_session_lifecycle valid_session_work valid_topic_ids valid_topics validate_state last_id
    topic_evidence valid_current_turn valid_learner_turns valid_lifecycle valid_topic_state
    valid_topic_work valid_work_status allowed_recovery_actions automatic_retry_allowed
    is_expected_id matching_trigger queued_work_from_event retry_trigger_matches valid_current_work
    valid_status binding_tree derive_queued derive_runnable_work derive_waiting derive_work_id
    has_runnable_work_id no_work origin_is_valid origin_matches provisional_work queued_of
    valid_work_shape validate_runnable_work work_binding_digest work_of_topic
model = tt
