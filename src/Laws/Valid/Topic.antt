-- ===== src/Laws/Valid/Topic.antt =====
-- The events of an active Run leave a valid snapshot.
use mathlib.Core.Path.{subst}
use x_sync.Prelude.{
  Option-cases, String, [], ap, arith, inl, inr, none, ok, some, true, ◌≡◌, ◌≤◌, ◌⊎◌,
}
use x_sync.Domain.{
  AgentTurnCommitted, CommittedDialogueEvent, ConversationPhase, CurrentWorkState, DialogueState,
  HelpRequested, LearnerTurnSubmitted, LensChanged, SessionLifecycle, TopicLifecycle, TopicRunState,
  TriggerKind,
}
use x_sync.Decide.Guards.{has_status}
use x_sync.Identity.{HasHexDigests, Sha256}
use x_sync.Laws.Valid.Carry.{Carried}
use x_sync.Laws.Valid.Ids.{places, places_of_valid_topic_ids, valid_topic_ids_of_places}
use x_sync.Laws.Valid.Run.{lens-valid, rework, rework-valid}
use x_sync.Laws.Valid.Turn.{same_evidence-topic_evidence, with_learner_turn-valid, with_turn-valid}
use x_sync.Laws.Valid.Work.{Queued-cases}
use x_sync.Reduce.Envelope.{advance}
use x_sync.Reduce.Topic.{reduce_agent_turn_committed, reduce_agent_turn_on, with_turn}
use x_sync.Reduce.Turn.{
  reduce_help_on, reduce_help_requested, reduce_learner_turn_on, reduce_learner_turn_submitted,
  reduce_lens_changed, reduce_lens_on, waiting_on, with_learner_turn,
}
use x_sync.Validate.Model.{valid_agent_turn}
use x_sync.Validate.State.{
  active_work, has_open_turn, holds_one_work, is_answerable, is_dead_status, is_waiting_status,
  valid_clarification_place, valid_ended, valid_new, valid_phase, valid_selection,
  valid_session_lifecycle,
}
use x_sync.Validate.Topic.{valid_lifecycle, valid_topic_state}

module _ ⦃h : Sha256⦄ (state : DialogueState) (event : CommittedDialogueEvent)
    (c : Carried state event.sequence) where
  pub active_valid :
      (topic : TopicRunState)
      → state.active_topic ≡ some topic
      → valid_topic_state topic TopicLifecycle.active state.session_id event.sequence ≡ true
  active_valid topic a = ground (arith, c.active)

  -- The places of the ids, when the active Run keeps its id.
  pub same_places :
      (topic next_topic : TopicRunState)
      → state.active_topic ≡ some topic
      → next_topic.topic_run_id ≡ topic.topic_run_id
      → (x : String) → places x state.paused_topics state.completed_topics (some next_topic) ≤ 1
  same_places topic next_topic a e x = ground (
    arith,
    places_of_valid_topic_ids state x c.topic_ids,
    ap (λ t. places x state.paused_topics state.completed_topics t) a,
  )

  -- An active Run has the work that its phase asks for, so the Session has none.
  pub no_session_work :
      (topic : TopicRunState)
      → state.active_topic ≡ some topic
      → ((state.session_work ≡ none)
          × (state.selected_candidate ≡ none)
          × (state.topic_clarification ≡ none)
          × (state.candidates ≡ [])
          × (state.lifecycle ≡ SessionLifecycle.opened))
  unfolding valid_phase valid_topic_state valid_lifecycle holds_one_work active_work has_open_turn
      is_answerable valid_selection valid_clarification_place valid_session_lifecycle valid_new
      valid_ended
  no_session_work topic a = ground (arith, c.phase, c.active, c.selection, c.place, c.lifecycle)

  -- With an active Run there is no selection and no clarification, and no work of the Session but in
  -- the phases that wait for it.
  pub waiting-Carried :
      (topic next_topic : TopicRunState) (work : CurrentWorkState)
      → state.active_topic ≡ some topic
      → state.session_work ≡ none
      → next_topic.topic_run_id ≡ topic.topic_run_id
      → next_topic.work ≡ some work
      → next_topic.current_agent_turn ≡ none
      → is_waiting_status work.status ≡ true
      → ((state.phase ≡ ConversationPhase.awaiting_user)
          ⊎ (state.phase ≡ ConversationPhase.waiting_host)
          ⊎ (state.phase ≡ ConversationPhase.recoverable_error))
      → valid_topic_state next_topic TopicLifecycle.active state.session_id event.sequence ≡ true
      → Carried (waiting_on state event next_topic) event.sequence
  unfolding advance valid_session_lifecycle valid_new valid_ended valid_phase valid_selection
      valid_clarification_place holds_one_work is_waiting_status active_work has_open_turn
      is_dead_status
  waiting-Carried topic next_topic work a s i w t q p v = ground (
    arith,
    valid_topic_ids_of_places (waiting_on state event next_topic)
        (same_places topic next_topic a i),
  )

module _ ⦃h : Sha256⦄ (hex : HasHexDigests h) (state : DialogueState)
    (event : CommittedDialogueEvent) (c : Carried state event.sequence)
    {next_state : DialogueState} where
  pub learner_turn_submitted-Carried :
      (p : LearnerTurnSubmitted)
      → reduce_learner_turn_submitted state event p ≡ ok next_state
      → Carried next_state event.sequence
  unfolding reduce_learner_turn_submitted reduce_learner_turn_on with_learner_turn is_waiting_status
  learner_turn_submitted-Carried p e = elim (Option-cases state.active_topic) [
    | inl missing ↦ ground arith
    | inr (topic, a) ↦ elim (Queued-cases state.session_id event p.next_trigger hex) [
      | inl (code, q) ↦ ground arith
      | inr (work, q, w) ↦
          let (s, x, y, z, o) = no_session_work state event c topic a in
          let v = active_valid state event c topic a in
          ground (
            arith,
            waiting-Carried state event c topic (with_learner_turn topic p work) work a s,
            with_learner_turn-valid state.session_id event topic p TriggerKind.learner_reply work v,
          )
    ]
  ]

  pub help_requested-Carried :
      (p : HelpRequested)
      → reduce_help_requested state event p ≡ ok next_state
      → Carried next_state event.sequence
  unfolding reduce_help_requested reduce_help_on is_waiting_status
  help_requested-Carried p e = elim (Option-cases state.active_topic) [
    | inl missing ↦ ground arith
    | inr (topic, a) ↦ elim (Queued-cases state.session_id event p.next_trigger hex) [
      | inl (code, q) ↦ ground arith
      | inr (work, q, w) ↦
          let (s, x, y, z, o) = no_session_work state event c topic a in
          let v = active_valid state event c topic a in
          ground (
            arith,
            waiting-Carried state event c topic (rework state.session_id event topic work) work a s,
            rework-valid state.session_id event topic p.next_trigger TriggerKind.help work v,
          )
    ]
  ]

  pub lens_changed-Carried :
      (p : LensChanged)
      → reduce_lens_changed state event p ≡ ok next_state
      → Carried next_state event.sequence
  unfolding reduce_lens_changed reduce_lens_on is_waiting_status
  lens_changed-Carried p e = elim (Option-cases state.active_topic) [
    | inl missing ↦ ground arith
    | inr (topic, a) ↦ elim (Queued-cases state.session_id event p.next_trigger hex) [
      | inl (code, q) ↦ ground arith
      | inr (work, q, w) ↦
          let (s, x, y, z, o) = no_session_work state event c topic a in
          let v = active_valid state event c topic a in
          ground (
            arith,
            waiting-Carried state event c topic
                (rework state.session_id event (record topic { current_lens = some p.lens }) work)
                work a s,
            lens-valid state.session_id event topic p.lens v,
            rework-valid state.session_id event (record topic { current_lens = some p.lens })
                p.next_trigger TriggerKind.lens_changed work,
          )
    ]
  ]

  pub agent_turn_committed-Carried :
      (p : AgentTurnCommitted)
      → reduce_agent_turn_committed state event p ≡ ok next_state
      → Carried next_state event.sequence
  unfolding reduce_agent_turn_committed reduce_agent_turn_on with_turn has_status advance
      valid_session_lifecycle valid_new valid_ended valid_phase valid_selection
      valid_clarification_place holds_one_work is_waiting_status active_work has_open_turn
      is_answerable
  agent_turn_committed-Carried p e = elim (Option-cases state.active_topic) [
    | inl missing ↦ ground arith
    | inr (topic, a) ↦
        let (s, x, y, z, o) = no_session_work state event c topic a in
        let q = same_evidence-topic_evidence p.evidence topic (ground arith) in
        let v =
          with_turn-valid state.session_id event topic p.result (active_valid state event c topic a)
            (subst (λ x. valid_agent_turn topic.contract p.result x topic.learner_turn_ids ≡ true) q
              (ground arith)) in
        ground (
          arith,
          c,
          valid_topic_ids_of_places next_state,
          same_places state event c topic (with_turn topic p.result) a,
        )
  ]
