-- ===== src/Session.antt =====
-- The start of a Session and the commit of a decision: `initial_dialogue_state` of xsync_v2/domain.py,
-- the loop of `_commit_dialogue_events` of xsync_v2/coordinator.py that numbers the events of a
-- decision, and `_validate_event_batch_shape` of xsync_v2/event_store.py.
-- The event ids are digests of the request: they are the argument `event_id` of the numbering loop.
use x_sync.Prelude.{
  Bool, Error, List, Option, Result, String, String-eq, [], any, err, false, if◌then◌else◌, ltb,
  none, not, ok, some, true, ℕ, ℕ-eq, ◌!=◌, ◌&&◌, ◌+◌, ◌==◌, ◌||◌, ◌∷◌,
}
use x_sync.Domain.{
  CommittedDialogueEvent, ConversationPhase, DialogueEventPayload, DialogueState,
  PendingDialogueEvent, SessionLifecycle, TriggerBinding-eq, WorkFailure-eq, work_dead_lettered,
  work_failed, work_requeued,
}
use x_sync.Rules.{conversation_version_delta}
use x_sync.Text.{valid_text}

unfoldable pub initial_dialogue_state : String → ℕ → Result DialogueState
initial_dialogue_state session_id registry_generation =
    if not (valid_text session_id) || ltb registry_generation 1
    then err Error.invalid_dialogue_envelope
    else ok (record {
      session_id = session_id;
      registry_generation = registry_generation;
      sequence = 0;
      conversation_version = 0;
      lifecycle = SessionLifecycle.new;
      phase = ConversationPhase.none_phase;
      candidates = [];
      session_work = none;
      active_topic = none;
      paused_topics = [];
      selected_candidate = none;
      topic_clarification = none;
      completed_topics = [];
      exports = [];
    })

-- One turn of the loop: `sequence` and `version` are those before the event.
unfoldable pub committed_event :
    (ℕ → String) → ℕ → ℕ → ℕ → PendingDialogueEvent → CommittedDialogueEvent
committed_event event_id index sequence version item = record {
  event_id = event_id index;
  sequence = sequence + 1;
  from_version = version;
  to_version = version + conversation_version_delta item.payload;
  command_id = item.command_id;
  payload = item.payload;
}

unfoldable pub committed_events :
    (ℕ → String) → ℕ → ℕ → ℕ → List PendingDialogueEvent → List CommittedDialogueEvent
committed_events event_id index sequence version [] = []
committed_events event_id index sequence version (item ∷ items) =
    committed_event event_id index sequence version item
    ∷ committed_events event_id (index + 1) (sequence + 1)
        (version + conversation_version_delta item.payload) items

pub data BatchError : Type 0 where
  invalid_commit_request event_version_conflict event_sequence_gap : BatchError
  invalid_work_failure_batch : BatchError

-- The tests of one event of a batch against the event before it; `none` where they pass.
unfoldable pub link_error :
    Option CommittedDialogueEvent → CommittedDialogueEvent → Option BatchError
link_error previous event =
    if ltb event.sequence 1
    then some BatchError.invalid_commit_request
    else if event.to_version != event.from_version + conversation_version_delta event.payload
    then some BatchError.event_version_conflict
    else elim previous [
      | none ↦ none
      | some before ↦
          if event.sequence != before.sequence + 1
          then some BatchError.event_sequence_gap
          else if event.from_version != before.to_version
          then some BatchError.event_version_conflict
          else none
    ]

-- The loop of `_validate_event_batch_shape`.
unfoldable pub chain_error :
    Option CommittedDialogueEvent → List CommittedDialogueEvent → Option BatchError
chain_error previous [] = none
chain_error previous (event ∷ events) =
    let rest = chain_error (some event) events in
    elim (link_error previous event) [ none ↦ rest | some e ↦ some e ]

unfoldable pub is_failure_payload : DialogueEventPayload → Bool
is_failure_payload (work_failed p) = true
is_failure_payload (work_requeued p) = true
is_failure_payload (work_dead_lettered p) = true
is_failure_payload _ = false

-- A resolution of the failure that it follows.
unfoldable pub resolves : DialogueEventPayload → DialogueEventPayload → Bool
resolves (work_failed f) (work_requeued r) =
    (r.failed_work_id == f.work_id)
    && (r.failed_trigger == f.trigger)
    && (r.failed_attempt == f.attempt)
    && (r.failure == f.failure)
resolves (work_failed f) (work_dead_lettered r) =
    (r.failed_work_id == f.work_id)
    && (r.failed_trigger == f.trigger)
    && (r.failed_attempt == f.attempt)
    && (r.failure == f.failure)
resolves _ _ = false

-- The second half of `_validate_event_batch_shape`: failures come with their resolution.
unfoldable pub failure_error : List CommittedDialogueEvent → Option BatchError
failure_error (first ∷ second ∷ []) =
    if is_failure_payload first.payload || is_failure_payload second.payload
    then (if resolves first.payload second.payload && (first.command_id == second.command_id)
        then none
        else some BatchError.invalid_work_failure_batch)
    else none
failure_error events =
    if any (λ (event : CommittedDialogueEvent). is_failure_payload event.payload) events
    then some BatchError.invalid_work_failure_batch
    else none

unfoldable pub batch_error : List CommittedDialogueEvent → Option BatchError
batch_error events = elim (chain_error none events) [
  | none ↦ failure_error events
  | some e ↦ some e
]
