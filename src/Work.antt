-- ===== src/Work.antt =====
-- xsync_v2/work.py: the work that the Host may run, as a projection of the snapshot, with the digest
-- that binds it to the aggregate.
use Prim.Native.String.{◌++◌ as append}
use x_sync.Prelude.{
  Bool, Error, List, Option, Result, String, String-eq, [], err, false, guard, if◌then◌else◌, leb,
  none, not, ok, some, ℕ, ℕ-eq, ◌!=◌, ◌&&◌, ◌++◌, ◌==◌, ◌>>=◌, ◌>>◌, ◌||◌, ◌∷◌,
}
use x_sync.Domain.{
  ConversationPhase, ConversationPhase-eq, CurrentWorkState, DialogueState, SessionLifecycle,
  SessionLifecycle-eq, TopicRunState, TriggerBinding, TriggerBinding-eq, TriggerKind, WorkStatus,
  WorkStatus-eq,
}
use x_sync.Identity.{
  Sha256, decimal, derive_canonical_work_id, is_canonical_trigger_binding, json_optional,
  json_string, kind_value,
}
use x_sync.Text.{
  codes, is_optional_protocol_id, is_optional_sha256_digest, is_protocol_id, is_sha256_digest,
}
use x_sync.Validate.State.{is_valid_state}

pub record WorkOrigin : Type 0 where
  pub trigger_event_id : String
  pub trigger_event_sequence : ℕ
  pub event_trigger : TriggerBinding

pub record RunnableWork : Type 0 where
  pub session_id : String
  pub registry_generation : ℕ
  pub conversation_version : ℕ
  pub observed_sequence : ℕ
  pub trigger_event_id : String
  pub trigger_event_sequence : ℕ
  pub topic_run_id : Option String
  pub kind : TriggerKind
  pub trigger_work_id : String
  pub work_id : String
  pub trigger_runtime_epoch : String
  pub parent_turn_id : Option String
  pub contract_digest : Option String
  pub input_digest : String
  pub evidence_digest : String
  pub binding_digest : String

unfoldable pub origin_is_valid : WorkOrigin → ℕ → Bool
origin_is_valid origin observed_sequence =
    is_protocol_id origin.trigger_event_id
    && leb 1 origin.trigger_event_sequence
    && leb origin.trigger_event_sequence observed_sequence
    && is_canonical_trigger_binding origin.event_trigger

-- The canonical JSON text of `_binding_tree` of a work.
unfoldable pub binding_tree : RunnableWork → List ℕ
binding_tree work =
    codes "{\"contract_digest\":"
    ++ json_optional work.contract_digest
    ++ codes ",\"conversation_version\":"
    ++ decimal work.conversation_version
    ++ codes ",\"evidence_digest\":"
    ++ json_string work.evidence_digest
    ++ codes ",\"input_digest\":"
    ++ json_string work.input_digest
    ++ codes ",\"kind\":"
    ++ json_string (kind_value work.kind)
    ++ codes ",\"parent_turn_id\":"
    ++ json_optional work.parent_turn_id
    ++ codes ",\"registry_generation\":"
    ++ decimal work.registry_generation
    ++ codes ",\"session_id\":"
    ++ json_string work.session_id
    ++ codes ",\"topic_run_id\":"
    ++ json_optional work.topic_run_id
    ++ codes ",\"trigger_event_id\":"
    ++ json_string work.trigger_event_id
    ++ codes ",\"trigger_event_sequence\":"
    ++ decimal work.trigger_event_sequence
    ++ codes ",\"trigger_runtime_epoch\":"
    ++ json_string work.trigger_runtime_epoch
    ++ codes ",\"trigger_work_id\":"
    ++ json_string work.trigger_work_id
    ++ codes ",\"work_id\":"
    ++ json_string work.work_id
    ++ codes "}"

abbrev pub trigger_of : RunnableWork → TriggerBinding
trigger_of work = record {
  kind = work.kind;
  work_id = work.trigger_work_id;
  runtime_epoch = work.trigger_runtime_epoch;
  parent_turn_id = work.parent_turn_id;
  contract_digest = work.contract_digest;
  input_digest = work.input_digest;
  evidence_digest = work.evidence_digest;
}

-- The tests on the fields of a work, before its identity is computed again.
unfoldable pub valid_work_shape : RunnableWork → Bool
valid_work_shape item =
    is_protocol_id item.session_id
    && leb 1 item.registry_generation
    && leb 1 item.observed_sequence
    && is_protocol_id item.trigger_event_id
    && leb 1 item.trigger_event_sequence
    && leb item.trigger_event_sequence item.observed_sequence
    && is_optional_protocol_id item.topic_run_id
    && is_protocol_id item.trigger_work_id
    && is_protocol_id item.work_id
    && is_protocol_id item.trigger_runtime_epoch
    && is_optional_protocol_id item.parent_turn_id
    && is_optional_sha256_digest item.contract_digest
    && is_sha256_digest item.input_digest
    && is_sha256_digest item.evidence_digest
    && is_sha256_digest item.binding_digest

-- The queued ones of the work of the Session and the work of the active topic.
unfoldable pub queued_of : Option CurrentWorkState → List CurrentWorkState
queued_of none = []
queued_of (some item) = if item.status == WorkStatus.queued then item ∷ [] else []

unfoldable pub work_of_topic : Option TopicRunState → Option CurrentWorkState
work_of_topic none = none
work_of_topic (some topic) = topic.work

abbrev pub queued_candidates : DialogueState → List CurrentWorkState
queued_candidates state =
    queued_of state.session_work ++ queued_of (work_of_topic state.active_topic)

abbrev pub topic_run_id_of : Option TopicRunState → Option String
topic_run_id_of none = none
topic_run_id_of (some topic) = some topic.topic_run_id

-- `WORK_ORIGIN_UNEXPECTED` where there is no work to run.
unfoldable pub no_work : Option WorkOrigin → Result (Option RunnableWork)
no_work none = ok none
no_work (some origin) = err Error.work_origin_unexpected

unfoldable pub origin_matches : WorkOrigin → CurrentWorkState → Bool
origin_matches origin current =
    (origin.event_trigger == current.trigger)
    && (origin.trigger_event_id == current.trigger_event_id)
    && (origin.trigger_event_sequence == current.trigger_event_sequence)

module _ ⦃h : Sha256⦄ where
  unfoldable pub work_binding_digest : RunnableWork → String
  work_binding_digest work = append "sha256:" (h.hexdigest (binding_tree work))

  unfoldable pub derive_work_id : String → WorkOrigin → TriggerBinding → Result String
  derive_work_id session_id origin trigger = do
    guard
        (is_protocol_id session_id
          && origin_is_valid origin origin.trigger_event_sequence
          && is_canonical_trigger_binding trigger
          && (origin.event_trigger == trigger))
        Error.work_id_input_invalid
    derive_canonical_work_id session_id origin.trigger_event_id origin.trigger_event_sequence
        trigger

  -- `_runnable_work_id` and its comparison with the id of the work.
  unfoldable pub has_runnable_work_id : RunnableWork → Bool
  has_runnable_work_id work =
      elim (derive_canonical_work_id work.session_id work.trigger_event_id
        work.trigger_event_sequence (trigger_of work)) [
          | err code ↦ false
          | ok work_id ↦ work.work_id == work_id
        ]

  unfoldable pub validate_runnable_work : RunnableWork → Result RunnableWork
  validate_runnable_work item = do
    guard (valid_work_shape item) Error.runnable_work_invalid
    guard (has_runnable_work_id item && (work_binding_digest item == item.binding_digest))
        Error.runnable_work_invalid
    ok item

  -- The work before its binding digest is known.
  unfoldable pub provisional_work :
      DialogueState → WorkOrigin → CurrentWorkState → String → String → RunnableWork
  provisional_work state origin current expected_work_id binding_digest = record {
    session_id = state.session_id;
    registry_generation = state.registry_generation;
    conversation_version = state.conversation_version;
    observed_sequence = state.sequence;
    trigger_event_id = origin.trigger_event_id;
    trigger_event_sequence = origin.trigger_event_sequence;
    topic_run_id = topic_run_id_of state.active_topic;
    kind = current.trigger.kind;
    trigger_work_id = current.trigger.work_id;
    work_id = expected_work_id;
    trigger_runtime_epoch = current.trigger.runtime_epoch;
    parent_turn_id = current.trigger.parent_turn_id;
    contract_digest = current.trigger.contract_digest;
    input_digest = current.trigger.input_digest;
    evidence_digest = current.trigger.evidence_digest;
    binding_digest = binding_digest;
  }

  -- The rest of `derive_runnable_work` when a work is queued.
  unfoldable pub derive_queued :
      DialogueState → Option WorkOrigin → CurrentWorkState → Result RunnableWork
  derive_queued state none current = err Error.work_origin_invalid
  derive_queued state (some origin) current = do
    guard (origin_is_valid origin state.sequence) Error.work_origin_invalid
    guard (origin_matches origin current) Error.work_origin_trigger_mismatch
    expected_work_id ← derive_work_id state.session_id origin current.trigger
    guard (expected_work_id == current.work_id) Error.state_invalid
    let provisional =
        provisional_work state origin current expected_work_id
          "sha256:0000000000000000000000000000000000000000000000000000000000000000"
    validate_runnable_work (record provisional { binding_digest = work_binding_digest provisional })

  unfoldable pub derive_waiting : DialogueState → Option WorkOrigin → Result (Option RunnableWork)
  derive_waiting state origin = elim (queued_candidates state) [
    | [] ↦ no_work origin
    | current ∷ [] ↦ derive_queued state origin current >>= λ work. ok (some work)
    | first ∷ second ∷ rest ↦ err Error.state_invalid
  ]

  unfoldable pub derive_runnable_work :
      DialogueState → Option WorkOrigin → Result (Option RunnableWork)
  derive_runnable_work state origin =
      if not (is_valid_state state)
      then err Error.state_invalid
      else if (state.lifecycle != SessionLifecycle.opened)
          || (state.phase != ConversationPhase.waiting_host)
      then no_work origin
      else derive_waiting state origin
