-- ===== src/Validate/State.antt =====
-- xsync_v2/state_machine.py: `validate_state`, one definition for each group of its tests. Every
-- failing test raises the same `ValueError("STATE_INVARIANT_VIOLATION")`.
use x_sync.Prelude.{
  Bool, Error, List, List-eq, Option, Result, String, String-eq, [], all, false, guard, has,
  is_distinct, is_empty, is_none, is_some, leb, map, none, not, some, suc, true, when, ℕ, ℕ-eq,
  ◌!=◌, ◌&&◌, ◌++◌, ◌==◌, ◌||◌, ◌∷◌,
}
use x_sync.Domain.{
  ConversationPhase, ConversationPhase-eq, CurrentWorkState, DialogueState, ExportRecord,
  SessionLifecycle, TopicClarification, TopicLifecycle, TopicRunState, TriggerKind,
  WorkRecoveryAction, WorkRecoveryAction-eq, WorkStatus, WorkStatus-eq,
}
use x_sync.Identity.{Sha256}
use x_sync.Rules.{is_publishable}
use x_sync.Text.{is_protocol_id, valid_text}
use x_sync.Validate.Shapes.{is_truthy, valid_candidates, valid_export_record, valid_trigger}
use x_sync.Validate.Topic.{valid_topic_state}
use x_sync.Validate.Work.{valid_current_work}

unfoldable pub valid_clarification : TopicClarification → Bool
valid_clarification clarification =
    valid_text clarification.question_id
    && valid_text clarification.question
    && when true valid_text clarification.answer

unfoldable pub active_work : DialogueState → Option CurrentWorkState
active_work state = elim state.active_topic [ none ↦ none | some topic ↦ topic.work ]

-- `topic is not None and topic.current_agent_turn is not None`.
unfoldable pub has_open_turn : DialogueState → Bool
has_open_turn state =
    when false (λ (topic : TopicRunState). is_some topic.current_agent_turn) state.active_topic

unfoldable pub valid_new : DialogueState → Bool
valid_new state =
    (state.phase == ConversationPhase.none_phase)
    && is_none state.active_topic
    && is_none state.session_work
    && is_empty state.paused_topics
    && is_empty state.completed_topics
    && is_empty state.exports

unfoldable pub valid_ended : DialogueState → Bool
valid_ended state =
    (state.phase == ConversationPhase.none_phase)
    && is_none state.active_topic
    && is_none state.session_work

unfoldable pub valid_session_lifecycle : DialogueState → SessionLifecycle → Bool
valid_session_lifecycle state SessionLifecycle.new = valid_new state
valid_session_lifecycle state SessionLifecycle.opened = true
valid_session_lifecycle state SessionLifecycle.ended = valid_ended state

-- The phases with one work item: its status, when the other place holds none.
unfoldable pub holds_one_work :
    (WorkStatus → Bool) → Option CurrentWorkState → Option CurrentWorkState → Bool
holds_one_work test (some work) none = test work.status
holds_one_work test none (some work) = test work.status
holds_one_work test _ _ = false

unfoldable pub is_waiting_status : WorkStatus → Bool
is_waiting_status WorkStatus.queued = true
is_waiting_status WorkStatus.failed = true
is_waiting_status _ = false

unfoldable pub is_dead_status : WorkStatus → Bool
is_dead_status WorkStatus.dead_letter = true
is_dead_status _ = false

unfoldable pub is_answerable : TopicRunState → Bool
is_answerable topic =
    is_some topic.current_agent_turn && is_none topic.work && is_publishable topic.evidence_health

-- The tests on the phase, its topic, candidates and work.
unfoldable pub valid_phase : DialogueState → ConversationPhase → Bool
valid_phase state ConversationPhase.none_phase =
    is_none state.active_topic && is_empty state.candidates && is_none state.session_work
valid_phase state ConversationPhase.choosing_topic =
    is_none state.active_topic
    && valid_candidates state.candidates
    && not (is_truthy state.selected_candidate)
    && is_none state.session_work
valid_phase state ConversationPhase.clarifying_topic =
    is_none state.active_topic
    && is_some state.selected_candidate
    && when false (λ (clarification : TopicClarification). is_none clarification.answer)
        state.topic_clarification
    && is_none state.session_work
    && is_empty state.candidates
valid_phase state ConversationPhase.awaiting_user =
    is_empty state.candidates
    && when false is_answerable state.active_topic
    && is_none state.session_work
valid_phase state ConversationPhase.waiting_host =
    is_empty state.candidates
    && holds_one_work is_waiting_status state.session_work (active_work state)
    && not (has_open_turn state)
valid_phase state ConversationPhase.recoverable_error =
    is_empty state.candidates
    && holds_one_work is_dead_status state.session_work (active_work state)
    && not (has_open_turn state)

-- The work of the Session: its trigger, and the candidate that it is for.
unfoldable pub valid_session_kind : DialogueState → TriggerKind → Bool
valid_session_kind state TriggerKind.topic_candidates = is_none state.selected_candidate
valid_session_kind state TriggerKind.topic_selection = is_some state.selected_candidate
valid_session_kind state _ = false

unfoldable pub valid_session_work : DialogueState → CurrentWorkState → Bool
valid_session_work state work =
    valid_session_kind state work.trigger.kind
    && valid_trigger work.trigger work.trigger.kind none work.trigger.evidence_digest
    && (work.status != WorkStatus.dead_letter
        || (work.allowed_recovery_actions == (WorkRecoveryAction.retry ∷ [])))

-- A selected candidate with no Session work is being clarified.
unfoldable pub valid_selection : DialogueState → Option CurrentWorkState → Bool
valid_selection state (some work) = valid_session_work state work
valid_selection state none =
    is_none state.selected_candidate || (state.phase == ConversationPhase.clarifying_topic)

unfoldable pub valid_clarification_place : DialogueState → TopicClarification → Bool
valid_clarification_place state clarification =
    is_some state.selected_candidate
    && is_none state.active_topic
    && ((state.phase == ConversationPhase.clarifying_topic)
        || ((state.phase == ConversationPhase.waiting_host) && is_some clarification.answer))

abbrev pub run_ids : List TopicRunState → List String
run_ids = map (λ (topic : TopicRunState). topic.topic_run_id)

-- `() if topic is None else (topic.topic_run_id,)`.
abbrev pub active_ids : Option TopicRunState → List String
active_ids active = elim active [ none ↦ [] | some topic ↦ topic.topic_run_id ∷ [] ]

-- `paused_ids + completed_ids + (() if topic is None else (topic.topic_run_id,))`.
unfoldable pub all_topic_ids : DialogueState → List String
all_topic_ids state =
    run_ids state.paused_topics ++ run_ids state.completed_topics ++ active_ids state.active_topic

unfoldable pub valid_topic_ids : DialogueState → Bool
valid_topic_ids state =
    when true
      (λ (topic : TopicRunState). not (has topic.topic_run_id (run_ids state.paused_topics)))
      state.active_topic
    && is_distinct (run_ids state.paused_topics)
    && is_distinct (run_ids state.completed_topics)
    && is_distinct (all_topic_ids state)

-- `tuple(range(start, start + len(xs)))` against the sequences of the exports.
unfoldable pub counts_from : ℕ → List ExportRecord → Bool
counts_from start [] = true
counts_from start (item ∷ items) = (item.export_sequence == start) && counts_from (suc start) items

unfoldable pub valid_export_ids : List ExportRecord → Bool
valid_export_ids exports =
    counts_from 1 exports
    && is_distinct (map (λ (item : ExportRecord). item.export_id) exports)
    && is_distinct (map (λ (item : ExportRecord). item.intent_id) exports)

module _ ⦃h : Sha256⦄ where
  -- The first test of `validate_state`, on the shape of every field.
  unfoldable pub valid_fields : DialogueState → Bool
  valid_fields state =
      is_protocol_id state.session_id
      && leb 1 state.registry_generation
      && when true valid_text state.selected_candidate
      && when true valid_clarification state.topic_clarification
      && when true (λ work. valid_current_work work state.session_id state.sequence)
          state.session_work
      && all (valid_export_record state.sequence) state.exports

  unfoldable pub valid_topics : DialogueState → Bool
  valid_topics state =
      when true
        (λ topic. valid_topic_state topic TopicLifecycle.active state.session_id state.sequence)
        state.active_topic
      && all
          (λ topic. valid_topic_state topic TopicLifecycle.paused state.session_id state.sequence)
          state.paused_topics
      && all
          (λ topic.
            valid_topic_state topic TopicLifecycle.completed state.session_id state.sequence)
          state.completed_topics

  unfoldable pub is_valid_state : DialogueState → Bool
  is_valid_state state =
      valid_fields state
      && valid_session_lifecycle state state.lifecycle
      && valid_phase state state.phase
      && valid_selection state state.session_work
      && when true (valid_clarification_place state) state.topic_clarification
      && valid_topics state
      && valid_topic_ids state
      && valid_export_ids state.exports

  unfoldable pub validate_state : DialogueState → Result (Unit {0})
  validate_state state = guard (is_valid_state state) Error.state_invariant_violation
