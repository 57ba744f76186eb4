-- ===== src/Reduce/Pause.antt =====
-- xsync_v2/state_machine.py: the branches of `reduce` for `TopicCompleted`, `TopicPaused`,
-- `TopicSwitchRequested`, `TopicExplorationRequested` and `SessionDeactivationPrepared`.
use mathlib.Core.Option
use x_sync.Prelude.{
  Bool, List, Option-eq, Result, String-eq, [], false, if◌then◌else◌, is_empty, is_none, none, not,
  ok, some, when, ℕ-eq, ◌!=◌, ◌&&◌, ◌++◌, ◌+◌, ◌==◌, ◌>>=◌, ◌>>◌, ◌||◌, ◌∷◌,
}
use x_sync.Domain.{
  CommittedDialogueEvent, ConversationPhase, ConversationPhase-eq, CurrentWorkState, DialogueState,
  PauseCause, SessionDeactivationPrepared, SessionLifecycle, SessionLifecycle-eq, TopicCompleted,
  TopicExplorationRequested, TopicLifecycle, TopicPaused, TopicRunState, TopicSummary,
  TopicSwitchRequested, TriggerBinding-eq, TriggerKind, WorkStatus, session_unresolved_trigger,
}
use x_sync.Decide.Guards.{completion_guard, fingerprint, has_status, same_evidence}
use x_sync.Identity.{Sha256}
use x_sync.Reduce.Envelope.{advance, require}
use x_sync.Reduce.Topic.{need_topic}
use x_sync.Rules.{is_publishable}
use x_sync.Text.{valid_text}
use x_sync.Validate.Shapes.{valid_trigger}
use x_sync.Validate.State.{is_waiting_status}
use x_sync.Validate.Work.{queued_work_from_event}

unfoldable pub completed_run : TopicRunState → TopicSummary → TopicRunState
completed_run topic summary = record topic {
  lifecycle = TopicLifecycle.completed;
  current_agent_turn = none;
  work = none;
  summary = some summary;
}

unfoldable pub reduce_completed_on :
    DialogueState → TopicRunState → CommittedDialogueEvent → TopicCompleted → Result DialogueState
reduce_completed_on state topic event payload = do
  require (
      (state.phase == ConversationPhase.waiting_host)
      && has_status WorkStatus.queued topic.work
      && (payload.topic_run_id == topic.topic_run_id)
      && when false (λ (work : CurrentWorkState). payload.trigger == work.trigger) topic.work
      && same_evidence payload.evidence topic
      && is_publishable payload.evidence.health
      && (payload.as_of_sequence == state.sequence)
      && (payload.evidence_fingerprint == fingerprint payload.evidence)
      && completion_guard topic payload.summary)
  let next_state = advance state event
  ok (record next_state {
    active_topic = none;
    completed_topics = state.completed_topics ++ completed_run topic payload.summary ∷ [];
    phase = ConversationPhase.none_phase;
  })

unfoldable pub reduce_topic_completed :
    DialogueState → CommittedDialogueEvent → TopicCompleted → Result DialogueState
reduce_topic_completed state event payload =
    need_topic state.active_topic (λ topic. reduce_completed_on state topic event payload)

-- Work that waits for the host is superseded when its Run is paused.
unfoldable pub paused_work : CurrentWorkState → CurrentWorkState
paused_work work =
    if is_waiting_status work.status then record work { status = WorkStatus.superseded } else work

unfoldable pub paused_run : TopicRunState → TopicRunState
paused_run topic = record topic {
  lifecycle = TopicLifecycle.paused;
  work = Option.map paused_work topic.work;
}

-- The tests on the cause of a pause.
unfoldable pub valid_cause : DialogueState → TopicPaused → PauseCause → Bool
valid_cause state payload PauseCause.user =
    is_none payload.handoff_id && is_none payload.fence_generation
valid_cause state payload PauseCause.session_deactivation =
    when false valid_text payload.handoff_id
    && (payload.fence_generation == some (state.registry_generation + 1))

unfoldable pub reduce_paused_on :
    DialogueState → TopicRunState → CommittedDialogueEvent → TopicPaused → Result DialogueState
reduce_paused_on state topic event payload = do
  require (valid_text payload.topic_run_id && (topic.topic_run_id == payload.topic_run_id))
  require (valid_cause state payload payload.cause)
  let next_state = advance state event
  ok (record next_state {
    active_topic = none;
    paused_topics = state.paused_topics ++ paused_run topic ∷ [];
    phase = ConversationPhase.none_phase;
  })

unfoldable pub reduce_topic_paused :
    DialogueState → CommittedDialogueEvent → TopicPaused → Result DialogueState
reduce_topic_paused state event payload =
    need_topic state.active_topic (λ topic. reduce_paused_on state topic event payload)

-- The Session asks the host for fresh candidates.
abbrev pub seeking :
    DialogueState → CommittedDialogueEvent → CurrentWorkState → List TopicRunState → DialogueState
seeking state event work paused_topics =
    let next_state = advance state event in
    record next_state {
      active_topic = none;
      paused_topics = paused_topics;
      candidates = [];
      selected_candidate = none;
      topic_clarification = none;
      session_work = some work;
      phase = ConversationPhase.waiting_host;
    }

module _ ⦃h : Sha256⦄ where
  unfoldable pub reduce_switch_on :
      DialogueState
      → TopicRunState
      → CommittedDialogueEvent
      → TopicSwitchRequested
      → Result DialogueState
  reduce_switch_on state topic event payload = do
    require (
        (topic.topic_run_id == payload.topic_run_id)
        && valid_trigger payload.candidate_trigger TriggerKind.topic_candidates none
            payload.candidate_trigger.evidence_digest)
    work ← queued_work_from_event state.session_id event payload.candidate_trigger 1 none
    ok (seeking state event work (state.paused_topics ++ paused_run topic ∷ []))

  unfoldable pub reduce_topic_switch_requested :
      DialogueState → CommittedDialogueEvent → TopicSwitchRequested → Result DialogueState
  reduce_topic_switch_requested state event payload =
      need_topic state.active_topic (λ topic. reduce_switch_on state topic event payload)

  -- The branch leaves `active_topic` as it is, and tests that it is `None`.
  unfoldable pub reduce_topic_exploration_requested :
      DialogueState → CommittedDialogueEvent → TopicExplorationRequested → Result DialogueState
  reduce_topic_exploration_requested state event payload = do
    require (
        (state.phase == ConversationPhase.none_phase)
        && is_none state.active_topic
        && is_none state.session_work
        && not (is_empty state.completed_topics && is_empty state.paused_topics)
        && valid_trigger payload.candidate_trigger TriggerKind.topic_candidates none
            payload.candidate_trigger.evidence_digest)
    work ← queued_work_from_event state.session_id event payload.candidate_trigger 1 none
    ok (seeking state event work state.paused_topics)

-- A new Session, or an open one outside the empty phase.
unfoldable pub valid_source : DialogueState → Bool
valid_source state =
    ((state.lifecycle == SessionLifecycle.new)
      && (state.phase == ConversationPhase.none_phase)
      && is_none state.session_work)
    || ((state.lifecycle == SessionLifecycle.opened)
        && (state.phase != ConversationPhase.none_phase))

unfoldable pub reduce_session_deactivation_prepared :
    DialogueState → CommittedDialogueEvent → SessionDeactivationPrepared → Result DialogueState
reduce_session_deactivation_prepared state event payload = do
  require (
      valid_source state
      && is_none state.active_topic
      && valid_text payload.handoff_id
      && (payload.fence_generation == state.registry_generation + 1)
      && (payload.superseded_trigger == session_unresolved_trigger state))
  let next_state = advance state event
  ok (record next_state {
    lifecycle = SessionLifecycle.opened;
    phase = ConversationPhase.none_phase;
    candidates = [];
    selected_candidate = none;
    topic_clarification = none;
    session_work = none;
  })
