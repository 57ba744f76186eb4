-- ===== src/Validate/Shapes.antt =====
-- xsync_v2/state_machine.py: `_valid_contract_shape` to `_valid_export_record`.
-- A test that holds of every value of its type in the model is left out.
use x_sync.Prelude.{
  Bool, Eq, List, Option, Option-eq, String, String-eq, all, false, if◌then◌else◌, is_distinct,
  is_empty, is_none, is_subset, leb, length, map, not, when, ℕ, ℕ-eq, ◌!=◌, ◌&&◌, ◌++◌, ◌==◌, ◌||◌,
}
use x_sync.Domain.{
  EvidenceCheck, EvidenceHealth, EvidenceHealth-eq, ExportRecord, ExportStatus, ExportStatus-eq,
  GateId-eq, GateRequirement, TopicContract, TriggerBinding, TriggerKind, TriggerKind-eq,
  WorkFailure,
}
use x_sync.Identity.{is_canonical_trigger_binding}
use x_sync.Rules.{required_gates}
use x_sync.Text.{
  is_optional_protocol_id, is_optional_sha256_digest, is_protocol_id, is_sha256_digest, valid_text,
}

-- `bool(text)` of an optional text.
unfoldable pub is_truthy : Option String → Bool
is_truthy text = when false (λ s. s != "") text

-- Two tuples with the same set of elements.
unfoldable pub is_same_set {ℓ} : {A : Type ℓ} ⦃e : Eq A⦄ → List A → List A → Bool
is_same_set xs ys = is_subset xs ys && is_subset ys xs

unfoldable pub valid_contract_shape : TopicContract → Bool
valid_contract_shape contract =
    leb 1 contract.contract_version
    && is_optional_protocol_id contract.supersedes_contract_id
    && is_protocol_id contract.contract_id
    && is_protocol_id contract.topic_run_id
    && is_protocol_id contract.task_scope.task_id
    && valid_text contract.title
    && valid_text contract.guiding_question
    && valid_text contract.objective
    && is_sha256_digest contract.contract_digest
    && all valid_text contract.evidence_refs
    && valid_text contract.task_scope.summary
    && all valid_text (contract.task_scope.included_paths ++ contract.task_scope.excluded_paths)

unfoldable pub valid_contract : TopicContract → Bool
valid_contract contract =
    let gate_ids = map (λ (item : GateRequirement). item.gate_id) contract.gates in
    valid_contract_shape contract
    && contract.bridge_required
    && not (is_empty contract.evidence_refs)
    && is_distinct contract.evidence_refs
    && (length gate_ids == length required_gates)
    && is_same_set gate_ids required_gates
    && all (λ (item : GateRequirement). item.required) contract.gates

unfoldable pub valid_evidence_shape : EvidenceCheck → Bool
valid_evidence_shape check =
    is_sha256_digest check.evidence_digest
    && is_optional_sha256_digest check.exact_recheck_fingerprint

unfoldable pub valid_evidence : EvidenceCheck → Bool
valid_evidence evidence =
    valid_evidence_shape evidence
    && (evidence.health != EvidenceHealth.captured_dirty
        || is_truthy evidence.exact_recheck_fingerprint)

unfoldable pub valid_candidates_shape : List String → Bool
valid_candidates_shape candidates = all valid_text candidates

unfoldable pub valid_candidates : List String → Bool
valid_candidates candidates =
    valid_candidates_shape candidates
    && leb 1 (length candidates)
    && leb (length candidates) 4
    && is_distinct candidates

unfoldable pub valid_trigger : TriggerBinding → TriggerKind → Option String → String → Bool
valid_trigger trigger kind contract_digest evidence_digest =
    is_canonical_trigger_binding trigger
    && (trigger.kind == kind)
    && (trigger.contract_digest == contract_digest)
    && (trigger.evidence_digest == evidence_digest)

unfoldable pub valid_work_failure : WorkFailure → Bool
valid_work_failure failure =
    is_protocol_id failure.failure_id
    && valid_text failure.safe_error_code
    && is_sha256_digest failure.proof_digest

-- The six fields of a completed export, all absent.
unfoldable pub lacks_completion : ExportRecord → Bool
lacks_completion record_ =
    is_none record_.completed_at
    && is_none record_.json_path
    && is_none record_.json_digest
    && is_none record_.markdown_path
    && is_none record_.markdown_digest
    && is_none record_.freshness_overlay_digest

-- The six fields of a completed export, all present and well formed.
unfoldable pub has_completion : ExportRecord → Bool
has_completion record_ =
    when false valid_text record_.completed_at
    && when false is_protocol_id record_.json_path
    && when false is_sha256_digest record_.json_digest
    && when false is_protocol_id record_.markdown_path
    && when false is_sha256_digest record_.markdown_digest
    && when false is_sha256_digest record_.freshness_overlay_digest

unfoldable pub valid_export_record : ℕ → ExportRecord → Bool
valid_export_record observed_sequence record_ =
    is_protocol_id record_.export_id
    && leb 1 record_.export_sequence
    && is_protocol_id record_.intent_id
    && leb record_.as_of_event_sequence observed_sequence
    && valid_text record_.requested_at
    && is_sha256_digest record_.payload_digest
    && (if record_.status == ExportStatus.requested
        then lacks_completion record_
        else has_completion record_)
