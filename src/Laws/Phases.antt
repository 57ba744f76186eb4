-- ===== src/Laws/Phases.antt =====
-- The phases of a conversation: which event leads from which phase to which.
use x_sync.Prelude.{arith, inl, inr, ok, refl, some, true, ◌≡◌, ◌⊎◌}
use x_sync.Domain.{
  CommittedDialogueEvent, ConversationPhase, DialogueEventPayload, DialogueState,
  SessionDeactivationPrepared, SessionLifecycle, SessionStarted, TopicRunState,
  agent_turn_committed, candidates_presented, export_completed, export_requested, help_requested,
  learner_turn_submitted, lens_changed, session_deactivation_prepared, session_started,
  topic_clarification_answered, topic_clarification_requested, topic_completed,
  topic_exploration_requested, topic_paused, topic_resumed, topic_selection_submitted,
  topic_started, topic_switch_requested, work_dead_lettered, work_failed, work_recovery_requested,
  work_requeued,
}
use x_sync.Identity.{Sha256}
use x_sync.Laws.Frame.{reduce-Reduced}
use x_sync.Reduce.Pause.{valid_source}
use x_sync.Reduce.Step.{reduce, transition}
use x_sync.Reduce.Topic.{is_durable_started, is_legacy_started}
use x_sync.Validate.State.{is_valid_state, valid_phase}

-- The phases in which a Run is active.
abbrev pub Running : ConversationPhase → Type 0
Running phase =
    (phase ≡ ConversationPhase.awaiting_user)
    ⊎ (phase ≡ ConversationPhase.waiting_host)
    ⊎ (phase ≡ ConversationPhase.recoverable_error)

-- The diagram of the phases: the phases before and after an event.
abbrev pub Edge : DialogueEventPayload → ConversationPhase → ConversationPhase → Type 0
Edge (session_started p) a b =
    (a ≡ ConversationPhase.none_phase) × (b ≡ ConversationPhase.waiting_host)
Edge (candidates_presented p) a b =
    (a ≡ ConversationPhase.waiting_host) × (b ≡ ConversationPhase.choosing_topic)
Edge (topic_selection_submitted p) a b =
    (a ≡ ConversationPhase.choosing_topic) × (b ≡ ConversationPhase.waiting_host)
Edge (topic_clarification_requested p) a b =
    (a ≡ ConversationPhase.waiting_host) × (b ≡ ConversationPhase.clarifying_topic)
Edge (topic_clarification_answered p) a b =
    (a ≡ ConversationPhase.clarifying_topic) × (b ≡ ConversationPhase.waiting_host)
Edge (topic_started p) a b =
    ((a ≡ ConversationPhase.choosing_topic) ⊎ (a ≡ ConversationPhase.waiting_host))
    × (b ≡ ConversationPhase.waiting_host)
Edge (agent_turn_committed p) a b =
    (a ≡ ConversationPhase.waiting_host) × (b ≡ ConversationPhase.awaiting_user)
Edge (learner_turn_submitted p) a b =
    (a ≡ ConversationPhase.awaiting_user) × (b ≡ ConversationPhase.waiting_host)
Edge (lens_changed p) a b =
    ((a ≡ ConversationPhase.awaiting_user) ⊎ (a ≡ ConversationPhase.waiting_host))
    × (b ≡ ConversationPhase.waiting_host)
Edge (help_requested p) a b =
    (a ≡ ConversationPhase.awaiting_user) × (b ≡ ConversationPhase.waiting_host)
Edge (topic_completed p) a b =
    (a ≡ ConversationPhase.waiting_host) × (b ≡ ConversationPhase.none_phase)
Edge (topic_paused p) a b = Running a × (b ≡ ConversationPhase.none_phase)
Edge (topic_switch_requested p) a b = Running a × (b ≡ ConversationPhase.waiting_host)
Edge (topic_exploration_requested p) a b =
    (a ≡ ConversationPhase.none_phase) × (b ≡ ConversationPhase.waiting_host)
Edge (session_deactivation_prepared p) a b = b ≡ ConversationPhase.none_phase
Edge (topic_resumed p) a b =
    (a ≡ ConversationPhase.none_phase)
    × ((b ≡ ConversationPhase.waiting_host) ⊎ (b ≡ ConversationPhase.awaiting_user))
Edge (work_failed p) a b =
    (a ≡ ConversationPhase.waiting_host) × (b ≡ ConversationPhase.waiting_host)
Edge (work_requeued p) a b =
    (a ≡ ConversationPhase.waiting_host) × (b ≡ ConversationPhase.waiting_host)
Edge (work_dead_lettered p) a b =
    (a ≡ ConversationPhase.waiting_host) × (b ≡ ConversationPhase.recoverable_error)
Edge (work_recovery_requested p) a b =
    ((a ≡ ConversationPhase.recoverable_error) ⊎ (a ≡ ConversationPhase.none_phase))
    × (b ≡ ConversationPhase.waiting_host)
Edge (export_requested p) a b = b ≡ a
Edge (export_completed p) a b = b ≡ a

module _ ⦃h : Sha256⦄ where
  -- A Run is active only in three of the phases.
  pub active-Running :
      (state : DialogueState) {topic : TopicRunState}
      → is_valid_state state ≡ true
      → state.active_topic ≡ some topic
      → Running state.phase
  unfolding is_valid_state valid_phase
  active-Running state v a = ground arith

  transition-Edge :
      (state : DialogueState) (event : CommittedDialogueEvent) (p : DialogueEventPayload)
      {next_state : DialogueState}
      → is_valid_state state ≡ true
      → transition state event p ≡ ok next_state
      → Edge p state.phase next_state.phase
  unfolding transition is_valid_state valid_phase is_legacy_started is_durable_started
  transition-Edge state event (session_started p) v e = ground arith
  transition-Edge state event p v e = ground arith

  -- Every event that `reduce` accepts follows an edge of the diagram of the phases. The edges are those
  -- of the code: unlike in the design spec, a topic switch needs an active Run, and a Session without
  -- one goes on by an exploration.
  pub reduce-Edge :
      (state : DialogueState) (event : CommittedDialogueEvent) {next_state : DialogueState}
      → reduce state event ≡ ok next_state
      → Edge event.payload state.phase next_state.phase
  reduce-Edge state event e =
      let r = reduce-Reduced state event e in
      transition-Edge state event event.payload r.valid r.moved

  -- An event that opens a Session.
  abbrev pub Opens : DialogueEventPayload → Type 0
  Opens payload =
      ((p : SessionStarted) × (payload ≡ session_started p))
      ⊎ ((p : SessionDeactivationPrepared) × (payload ≡ session_deactivation_prepared p))

  prepared-lifecycle :
      (state : DialogueState) (event : CommittedDialogueEvent) (p : SessionDeactivationPrepared)
      {next_state : DialogueState}
      → transition state event (session_deactivation_prepared p) ≡ ok next_state
      → (next_state.lifecycle ≡ state.lifecycle)
        ⊎ ((state.lifecycle ≡ SessionLifecycle.new)
            × (next_state.lifecycle ≡ SessionLifecycle.opened))
  unfolding transition valid_source
  prepared-lifecycle state event p e = ground arith

  transition-lifecycle :
      (state : DialogueState) (event : CommittedDialogueEvent) (p : DialogueEventPayload)
      {next_state : DialogueState}
      → is_valid_state state ≡ true
      → transition state event p ≡ ok next_state
      → (next_state.lifecycle ≡ state.lifecycle)
        ⊎ (Opens p
            × (state.lifecycle ≡ SessionLifecycle.new)
            × (next_state.lifecycle ≡ SessionLifecycle.opened))
  unfolding transition
  transition-lifecycle state event (session_started p) v e =
      inr (inl (p, refl), ground arith, ground arith)
  transition-lifecycle state event (session_deactivation_prepared p) v e =
      elim (prepared-lifecycle state event p e) [
        | inl same ↦ inl same
        | inr (was, is) ↦ inr (inr (p, refl), was, is)
      ]
  transition-lifecycle state event p v e = inl (ground arith)

  -- An event that `reduce` accepts keeps the lifecycle of the Session, or opens a new one and is a
  -- `session_started` or a `session_deactivation_prepared`. So no event of the code ends a Session; the
  -- `session_ended` of the design spec is not among them.
  pub reduce_lifecycle :
      (state : DialogueState) (event : CommittedDialogueEvent) {next_state : DialogueState}
      → reduce state event ≡ ok next_state
      → (next_state.lifecycle ≡ state.lifecycle)
        ⊎ (Opens event.payload
            × (state.lifecycle ≡ SessionLifecycle.new)
            × (next_state.lifecycle ≡ SessionLifecycle.opened))
  reduce_lifecycle state event e =
      let r = reduce-Reduced state event e in
      transition-lifecycle state event event.payload r.valid r.moved
