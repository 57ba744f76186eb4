-- ===== src/Decide/Guards.antt =====
-- Tests that several handlers of xsync_v2/state_machine.py write out.
use x_sync.Prelude.{
  Bool, List, Option, Option-eq, String, String-eq, all, any, false, if◌then◌else◌, is_some,
  is_subset, keep, none, some, true, when, ◌!=◌, ◌&&◌, ◌==◌,
}
use x_sync.Domain.{
  ConversationPhase, ConversationPhase-eq, CurrentWorkState, DialogueState, EvidenceCheck,
  EvidenceHealth, EvidenceHealth-eq, GateAssessment, GateStatus, GateStatus-eq, InsightKind,
  InsightKind-eq, InsightStatus, InsightStatus-eq, LearnerModelEntry, TopicRunState, TopicSummary,
  TriggerBinding, TriggerKind, TriggerKind-eq, WorkStatus, WorkStatus-eq, open_question_id,
}
use x_sync.Rules.{is_publishable}
use x_sync.Validate.Model.{entry_ids}

-- `work is not None and work.status is status`.
unfoldable pub has_status : WorkStatus → Option CurrentWorkState → Bool
has_status status work = when false (λ (w : CurrentWorkState). w.status == status) work

-- `work is not None and work.trigger.kind is kind`.
unfoldable pub has_kind : TriggerKind → Option CurrentWorkState → Bool
has_kind kind work = when false (λ (w : CurrentWorkState). w.trigger.kind == kind) work

-- The evidence agrees with that of the Run in health, digest and fingerprint.
unfoldable pub same_evidence : EvidenceCheck → TopicRunState → Bool
same_evidence evidence topic =
    (evidence.health == topic.evidence_health)
    && (evidence.evidence_digest == topic.evidence_digest)
    && (evidence.exact_recheck_fingerprint == topic.exact_recheck_fingerprint)

-- `health in {STALE, DISPUTED, UNAVAILABLE}`.
unfoldable pub is_degraded : EvidenceHealth → Bool
is_degraded EvidenceHealth.stale = true
is_degraded EvidenceHealth.disputed = true
is_degraded EvidenceHealth.unavailable = true
is_degraded _ = false

-- `INITIAL_TURN if health in PUBLISHABLE_EVIDENCE else REGROUND`.
unfoldable pub initial_kind : EvidenceHealth → TriggerKind
initial_kind health =
    if is_publishable health then TriggerKind.initial_turn else TriggerKind.reground

-- The parent turn that a lens change must name.
unfoldable pub lens_parent : DialogueState → TopicRunState → Option String
lens_parent state topic =
    if (state.phase == ConversationPhase.awaiting_user) && is_some topic.current_agent_turn
    then open_question_id topic
    else elim topic.work [ none ↦ none | some work ↦ work.trigger.parent_turn_id ]

-- The ids of the confirmed entries.
unfoldable pub confirmed_ids : List LearnerModelEntry → List String
confirmed_ids entries =
    entry_ids
      (keep (λ (entry : LearnerModelEntry). entry.status == InsightStatus.confirmed) entries)

unfoldable pub is_bridge : LearnerModelEntry → Bool
is_bridge entry =
    (entry.kind == InsightKind.business_technical_mapping)
    && (entry.status == InsightStatus.confirmed)

unfoldable pub is_supported : GateAssessment → Bool
is_supported item = item.status == GateStatus.supported

-- Every gate is supported, a bridge is confirmed, and the summary cites confirmed entries.
unfoldable pub completion_guard : TopicRunState → TopicSummary → Bool
completion_guard topic summary =
    all is_supported topic.gates
    && any is_bridge topic.learner_model
    && is_subset summary.confirmed_entry_ids (confirmed_ids topic.learner_model)

-- `exact_recheck_fingerprint`, or else `evidence_digest`.
unfoldable pub fingerprint : EvidenceCheck → String
fingerprint evidence = elim evidence.exact_recheck_fingerprint [
  | none ↦ evidence.evidence_digest
  | some exact ↦ exact
]

-- A trigger that grounds a dead-lettered work item anew.
unfoldable pub reground_trigger_matches : TriggerBinding → TriggerBinding → EvidenceCheck → Bool
reground_trigger_matches dead trigger evidence =
    (trigger.work_id != dead.work_id)
    && (trigger.kind == TriggerKind.reground)
    && (trigger.parent_turn_id == dead.parent_turn_id)
    && (trigger.contract_digest == dead.contract_digest)
    && (trigger.evidence_digest == evidence.evidence_digest)
