-- ===== src/Rules.antt =====
-- The constants of xsync_v2/state_machine.py and the version effect of an event payload.
use x_sync.Prelude.{Bool, List, [], false, true, ℕ, ◌==◌, ◌||◌, ◌∷◌}
use x_sync.Domain.{
  DialogueEventPayload, EvidenceHealth, GateId, InsightStatus, InsightStatus-eq,
  WorkFailureCategory, export_completed, export_requested, work_failed, work_requeued,
}

abbrev pub required_gates : List GateId
required_gates = GateId.mechanism ∷ GateId.boundary ∷ GateId.repository_application ∷ []

-- `health in PUBLISHABLE_EVIDENCE`.
unfoldable pub is_publishable : EvidenceHealth → Bool
is_publishable EvidenceHealth.current = true
is_publishable EvidenceHealth.captured_dirty = true
is_publishable _ = false

abbrev pub max_automatic_work_attempts : ℕ
max_automatic_work_attempts = 3

-- `category in RETRYABLE_WORK_FAILURES`.
unfoldable pub is_retryable : WorkFailureCategory → Bool
is_retryable WorkFailureCategory.host_transient = true
is_retryable WorkFailureCategory.result_invalid = true
is_retryable WorkFailureCategory.lease_attempts_exhausted = true
is_retryable _ = false

unfoldable pub conversation_version_delta : DialogueEventPayload → ℕ
conversation_version_delta (work_failed p) = 0
conversation_version_delta (work_requeued p) = 0
conversation_version_delta (export_requested p) = 0
conversation_version_delta (export_completed p) = 0
conversation_version_delta _ = 1

-- `status in MODEL_STATUS_TRANSITIONS[before]`.
unfoldable pub model_status_transition : InsightStatus → InsightStatus → Bool
model_status_transition InsightStatus.working_model status =
    (status == InsightStatus.confirmed)
    || (status == InsightStatus.stale)
    || (status == InsightStatus.disputed)
model_status_transition InsightStatus.open_question status =
    (status == InsightStatus.working_model)
    || (status == InsightStatus.confirmed)
    || (status == InsightStatus.stale)
    || (status == InsightStatus.disputed)
model_status_transition InsightStatus.confirmed status =
    (status == InsightStatus.stale) || (status == InsightStatus.disputed)
model_status_transition InsightStatus.stale status =
    (status == InsightStatus.working_model)
    || (status == InsightStatus.confirmed)
    || (status == InsightStatus.disputed)
model_status_transition InsightStatus.disputed status =
    (status == InsightStatus.working_model)
    || (status == InsightStatus.confirmed)
    || (status == InsightStatus.stale)
