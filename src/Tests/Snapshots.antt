-- ===== src/Tests/Snapshots.antt =====
-- Snapshots and events for the instances of the theorems.
use Prim.Native.String.{◌++◌ as append}
use x_sync.Prelude.{[], none, some, ℕ, ◌+◌, ◌∷◌}
use x_sync.Domain.{
  CandidatesPresented, CommittedDialogueEvent, ConversationPhase, CurrentWorkState,
  DialogueEventPayload, DialogueState, EvidenceHealth, ExportRecord, ExportRequested, ExportStatus,
  SessionLifecycle, TopicClarification, TopicCompleted, TopicLifecycle, TopicRunState, TopicSummary,
  TriggerBinding, WorkDeadLettered, WorkFailure, WorkFailureCategory, WorkRecoveryAction,
  WorkStatus, export_requested, topic_completed,
}
use x_sync.Reduce.Export.{requested_record}
use x_sync.Reduce.Pause.{completed_run}
use x_sync.Rules.{conversation_version_delta}
use x_sync.Tests.Data.{candidates_trigger, digest, evidence, fresh, hex, fixed_sha256}
use x_sync.Tests.Scenario.{contract, entry, reply_trigger, second_turn, selection_trigger}

abbrev pub queued : TriggerBinding → ℕ → CurrentWorkState
queued binding sequence = record {
  work_id = append "work-" hex;
  trigger_event_id = "evt-1";
  trigger_event_sequence = sequence;
  trigger = binding;
  attempt = 1;
  status = WorkStatus.queued;
  last_failure = none;
  allowed_recovery_actions = [];
}

-- A Session whose learner has explained a topic back, at the last reply.
abbrev pub explained_run : TopicRunState
explained_run = record {
  topic_run_id = "run-1";
  contract = contract;
  lifecycle = TopicLifecycle.active;
  evidence_health = EvidenceHealth.current;
  evidence_digest = digest;
  exact_recheck_fingerprint = none;
  gates = second_turn.gate_assessments;
  learner_model = entry ∷ [];
  current_agent_turn = none;
  work = some (queued (reply_trigger "turn-2") 8);
  learner_turn_ids = "turn-1" ∷ "turn-2" ∷ [];
  last_learner_turn_id = some "turn-2";
  last_learner_text = some "Then it is dropped";
  summary = none;
  current_lens = none;
}

abbrev pub explained : DialogueState
explained = record fresh {
  sequence = 8;
  conversation_version = 8;
  lifecycle = SessionLifecycle.opened;
  phase = ConversationPhase.waiting_host;
  active_topic = some explained_run;
}

abbrev pub summary : TopicSummary
summary = record {
  takeaway = "Retries end";
  confirmed_entry_ids = "entry-1" ∷ [];
  open_questions = [];
  next_suggestion = "Look at the queue";
}

-- A Session that waits for its candidates.
abbrev pub started : DialogueState
started = record fresh {
  sequence = 1;
  conversation_version = 1;
  lifecycle = SessionLifecycle.opened;
  phase = ConversationPhase.waiting_host;
  session_work = some (queued candidates_trigger 1);
}

abbrev pub completed_export : ExportRecord
completed_export = record {
  export_id = "exp-1";
  export_sequence = 1;
  intent_id = "intent-1";
  as_of_event_sequence = 1;
  requested_at = "now";
  payload_digest = digest;
  status = ExportStatus.completed;
  completed_at = some "later";
  json_path = some "a.json";
  json_digest = some digest;
  markdown_path = some "a.md";
  markdown_digest = some digest;
  freshness_overlay_digest = some digest;
}

abbrev pub exported : DialogueState
exported = record started { exports = completed_export ∷ [] }

-- The event that follows a snapshot.
abbrev pub event_after : DialogueState → DialogueEventPayload → CommittedDialogueEvent
event_after state payload = record {
  event_id = "evt-1";
  sequence = state.sequence + 1;
  from_version = state.conversation_version;
  to_version = state.conversation_version + conversation_version_delta payload;
  command_id = "cmd-1";
  payload = payload;
}

abbrev pub completed_payload : TopicCompleted
completed_payload = record {
  topic_run_id = "run-1";
  summary = summary;
  trigger = reply_trigger "turn-2";
  evidence = evidence;
  as_of_sequence = 8;
  evidence_fingerprint = digest;
}

abbrev pub requested_payload : ExportRequested
requested_payload = record {
  export_id = "exp-2";
  export_sequence = 2;
  intent_id = "intent-2";
  as_of_event_sequence = 1;
  requested_at = "now";
  payload_digest = digest;
}

abbrev pub requested_event : CommittedDialogueEvent
requested_event = event_after exported (export_requested requested_payload)

abbrev pub after_request : DialogueState
after_request = record exported {
  sequence = 2;
  exports = completed_export ∷ requested_record requested_payload ∷ [];
}

abbrev pub completed_event : CommittedDialogueEvent
completed_event = event_after explained (topic_completed completed_payload)

abbrev pub after_completed : DialogueState
after_completed = record explained {
  sequence = 9;
  conversation_version = 9;
  phase = ConversationPhase.none_phase;
  active_topic = none;
  completed_topics = completed_run explained_run summary ∷ [];
}

abbrev pub permanent : WorkFailure
permanent = record {
  failure_id = "fail-1";
  category = WorkFailureCategory.host_permanent;
  safe_error_code = "HOST_GONE";
  proof_digest = digest;
}

abbrev pub clarification : TopicClarification
clarification = record { question_id = "q-1"; question = "Which?"; answer = some "That" }

-- A selection whose work has failed, after the clarification of its topic was answered.
abbrev pub clarified : DialogueState
clarified =
    let work = queued selection_trigger 1 in
    record started {
      session_work =
          some (record work { status = WorkStatus.failed; last_failure = some permanent });
      selected_candidate = some "Retries";
      topic_clarification = some clarification;
    }

abbrev pub dead_letter : WorkDeadLettered
dead_letter = record {
  failed_work_id = append "work-" hex;
  failed_trigger = selection_trigger;
  failed_attempt = 1;
  failure = permanent;
  allowed_actions = WorkRecoveryAction.retry ∷ [];
}

-- What the branch of that event makes of the snapshot.
abbrev pub dead_lettered : DialogueState
dead_lettered =
    let work = queued selection_trigger 1 in
    record clarified {
      sequence = 2;
      conversation_version = 2;
      phase = ConversationPhase.recoverable_error;
      session_work = some (record work {
        status = WorkStatus.dead_letter;
        last_failure = some permanent;
        allowed_recovery_actions = dead_letter.allowed_actions;
      });
    }

-- The same selection, still with the host.
abbrev pub selected : DialogueState
selected = record started {
  session_work = some (queued selection_trigger 1);
  selected_candidate = some "Retries";
}

abbrev pub presented : CandidatesPresented
presented = record { candidates = "Timeouts" ∷ []; trigger = selection_trigger }
