-- ===== src/Laws/Valid/Leave.antt =====
-- The events that start, end or leave a Run leave a valid snapshot.
use mathlib.Core.Path.{subst}
use x_sync.Prelude.{
  Option-cases, String-eq, [], arith, false, has, inl, inr, ok, refl, true, ◌++◌, ◌∷◌, ◌≡◌,
}
use x_sync.Domain.{
  CommittedDialogueEvent, DialogueState, SessionDeactivationPrepared, SessionLifecycle,
  TopicCompleted, TopicExplorationRequested, TopicPaused, TopicStarted, TopicSwitchRequested,
  topic_completed,
}
use x_sync.Decide.Guards.{initial_kind}
use x_sync.Identity.{HasHexDigests, Sha256}
use x_sync.Laws.Valid.Carry.{Carried}
use x_sync.Laws.Valid.Ids.{valid_topic_ids_of_places}
use x_sync.Laws.Valid.Places.{
  all-append_one, completed_places, paused_places, resting_places, resting_state-Carried,
  running_opened, seeking-Carried, started_state-Carried,
}
use x_sync.Laws.Valid.Run.{completed_run-valid, new_topic-valid, paused_run-valid}
use x_sync.Laws.Valid.Topic.{active_valid, no_session_work}
use x_sync.Laws.Valid.Work.{Queued-cases}
use x_sync.Reduce.Envelope.{advance, valid_completed_shape, valid_event_payload_shape}
use x_sync.Reduce.Pause.{
  completed_run, paused_run, reduce_completed_on, reduce_paused_on,
  reduce_session_deactivation_prepared, reduce_switch_on, reduce_topic_completed,
  reduce_topic_exploration_requested, reduce_topic_paused, reduce_topic_switch_requested,
  valid_source,
}
use x_sync.Reduce.Topic.{is_durable_started, is_legacy_started, new_topic, reduce_topic_started}
use x_sync.Validate.State.{
  is_waiting_status, run_ids, valid_clarification_place, valid_ended, valid_new, valid_phase,
  valid_selection, valid_session_lifecycle,
}

module _ ⦃h : Sha256⦄ (hex : HasHexDigests h) (state : DialogueState)
    (event : CommittedDialogueEvent) (c : Carried state event.sequence)
    {next_state : DialogueState} where
  pub topic_completed-Carried :
      (p : TopicCompleted)
      → valid_event_payload_shape (topic_completed p) ≡ true
      → reduce_topic_completed state event p ≡ ok next_state
      → Carried next_state event.sequence
  unfolding advance reduce_topic_completed reduce_completed_on valid_event_payload_shape
      valid_completed_shape completed_run
  topic_completed-Carried p s e = elim (Option-cases state.active_topic) [
    | inl missing ↦ ground arith
    | inr (topic, a) ↦
        subst (λ s. Carried s event.sequence) (ground arith)
          (resting_state-Carried state event c topic state.paused_topics
            (state.completed_topics ++ completed_run topic p.summary ∷ []) a c.paused
            (all-append_one _ state.completed_topics (completed_run topic p.summary) c.completed (
              completed_run-valid state.session_id event topic p.summary
                (active_valid state event c topic a) (ground arith)))
            (completed_places state c.topic_ids topic (completed_run topic p.summary) a refl))
  ]

  pub topic_paused-Carried :
      (p : TopicPaused)
      → reduce_topic_paused state event p ≡ ok next_state
      → Carried next_state event.sequence
  unfolding advance reduce_topic_paused reduce_paused_on paused_run
  topic_paused-Carried p e = elim (Option-cases state.active_topic) [
    | inl missing ↦ ground arith
    | inr (topic, a) ↦
        subst (λ s. Carried s event.sequence) (ground arith)
          (resting_state-Carried state event c topic (state.paused_topics ++ paused_run topic ∷ [])
            state.completed_topics a
            (all-append_one _ state.paused_topics (paused_run topic) c.paused
              (paused_run-valid state.session_id event topic (active_valid state event c topic a)))
            c.completed (paused_places state c.topic_ids topic (paused_run topic) a refl))
  ]

  pub topic_started-Carried :
      (p : TopicStarted)
      → has p.contract.topic_run_id (run_ids state.paused_topics) ≡ false
      → has p.contract.topic_run_id (run_ids state.completed_topics) ≡ false
      → reduce_topic_started state event p ≡ ok next_state
      → Carried next_state event.sequence
  unfolding reduce_topic_started new_topic is_legacy_started is_durable_started is_waiting_status
  topic_started-Carried p fresh_paused fresh_completed e =
      elim (Queued-cases state.session_id event p.initial_trigger hex) [
        | inl (code, q) ↦ ground arith
        | inr (work, q, w) ↦
            let v =
              new_topic-valid state.session_id event p.contract p.evidence p.initial_trigger
                (initial_kind p.evidence.health) work (ground arith) (ground arith) (ground arith)
                w in
            subst (λ s. Carried s event.sequence) (ground arith)
              (started_state-Carried state event c (new_topic p.contract p.evidence work) work
                (ground arith) (running_opened state event c (λ n. ground arith)) refl refl
                (ground (arith, w)) v fresh_paused fresh_completed)
      ]

  pub topic_switch_requested-Carried :
      (p : TopicSwitchRequested)
      → reduce_topic_switch_requested state event p ≡ ok next_state
      → Carried next_state event.sequence
  unfolding reduce_topic_switch_requested reduce_switch_on paused_run
  topic_switch_requested-Carried p e = elim (Option-cases state.active_topic) [
    | inl missing ↦ ground arith
    | inr (topic, a) ↦ elim (Queued-cases state.session_id event p.candidate_trigger hex) [
      | inl (code, q) ↦ ground arith
      | inr (work, q, w) ↦
          let (s, x, y, z, o) = no_session_work state event c topic a in
          subst (λ s. Carried s event.sequence) (ground arith)
            (seeking-Carried state event c (state.paused_topics ++ paused_run topic ∷ [])
              p.candidate_trigger work o w (ground arith)
              (all-append_one _ state.paused_topics (paused_run topic) c.paused (
                paused_run-valid state.session_id event topic (active_valid state event c topic a)))
              (paused_places state c.topic_ids topic (paused_run topic) a refl))
    ]
  ]

  pub topic_exploration_requested-Carried :
      (p : TopicExplorationRequested)
      → state.lifecycle ≡ SessionLifecycle.opened
      → reduce_topic_exploration_requested state event p ≡ ok next_state
      → Carried next_state event.sequence
  unfolding advance reduce_topic_exploration_requested valid_session_lifecycle valid_new valid_ended
  topic_exploration_requested-Carried p l e =
      elim (Queued-cases state.session_id event p.candidate_trigger hex) [
        | inl (code, q) ↦ ground arith
        | inr (work, q, w) ↦
            subst (λ s. Carried s event.sequence) (ground arith)
              (seeking-Carried state event c state.paused_topics p.candidate_trigger work l w
                (ground arith) c.paused (resting_places state c.topic_ids (ground arith)))
      ]

  pub session_deactivation_prepared-Carried :
      (p : SessionDeactivationPrepared)
      → reduce_session_deactivation_prepared state event p ≡ ok next_state
      → Carried next_state event.sequence
  unfolding reduce_session_deactivation_prepared advance valid_session_lifecycle valid_new
      valid_ended valid_phase valid_selection valid_clarification_place valid_source
  session_deactivation_prepared-Carried p e =
      ground (arith, c, valid_topic_ids_of_places next_state, resting_places state c.topic_ids)
