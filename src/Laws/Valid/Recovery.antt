-- ===== src/Laws/Valid/Recovery.antt =====
-- The recovery of a dead work item leaves a valid snapshot.
use mathlib.Core.Path.{subst}
use x_sync.Prelude.{
  Option-cases, String-eq, arith, count, inl, inr, none, ok, refl, some, true, ◌≡◌, ◌≤◌,
}
use x_sync.Domain.{
  CommittedDialogueEvent, ConversationPhase, CurrentWorkState, DialogueState, SessionLifecycle,
  TopicLifecycle, TopicRunState, WorkRecoveryRequested,
}
use x_sync.Decide.Work.{DeadWork, active_target, dead_work_target, recovers, session_target}
use x_sync.Identity.{HasHexDigests, Sha256}
use x_sync.Laws.Valid.Carry.{Carried}
use x_sync.Laws.Valid.Recovered.{
  keep_one, paused_parts, recovered_shape, run_recovered, session_recovered-Carried,
}
use x_sync.Laws.Valid.Return.{resumed_state-Carried}
use x_sync.Laws.Valid.Topic.{active_valid, no_session_work, waiting-Carried}
use x_sync.Laws.Valid.Work.{Queued, Queued-cases}
use x_sync.Reduce.Recover.{
  recover_active, recover_paused, recover_session, recovered_topic, reduce_recovery,
  reduce_recovery_on, reduce_work_recovery_requested,
}
use x_sync.Validate.Shapes.{valid_evidence}
use x_sync.Validate.State.{is_waiting_status, run_ids}
use x_sync.Validate.Topic.{valid_topic_state}

module _ ⦃h : Sha256⦄ (hex : HasHexDigests h) (state : DialogueState)
    (event : CommittedDialogueEvent) (c : Carried state event.sequence)
    {next_state : DialogueState} where
  active_recovery :
      (topic : TopicRunState) (target : DeadWork) (p : WorkRecoveryRequested)
      (work : CurrentWorkState)
      → state.active_topic ≡ some topic
      → topic.work ≡ some target.work
      → valid_evidence p.evidence ≡ true
      → recovers target p.action p.next_trigger p.evidence ≡ true
      → Queued state.session_id event p.next_trigger 1 none work
      → recover_active state event topic (recovered_topic topic p.action p.evidence work)
        ≡ ok next_state
      → Carried next_state event.sequence
  unfolding recover_active is_waiting_status
  active_recovery topic target p work a o ve r q e =
      let (s, x, y, z, l) = no_session_work state event c topic a in
      let (i, k, t) = recovered_shape hex state event c topic p.action p.evidence work in
      subst (λ s. Carried s event.sequence) (ground arith)
        (waiting-Carried state event c topic (recovered_topic topic p.action p.evidence work) work a
          s i k t (ground (arith, q)) (ground arith)
          (run_recovered hex state event c topic TopicLifecycle.active target p work
            (λ d. ground arith) (active_valid state event c topic a) o ve r q))

  paused_recovery :
      (topic : TopicRunState) (target : DeadWork) (p : WorkRecoveryRequested)
      (work : CurrentWorkState)
      → state.lifecycle ≡ SessionLifecycle.opened
      → valid_topic_state topic TopicLifecycle.paused state.session_id event.sequence ≡ true
      → 1 ≤ count ⦃e = String-eq⦄ topic.topic_run_id (run_ids state.paused_topics)
      → topic.work ≡ some target.work
      → valid_evidence p.evidence ≡ true
      → recovers target p.action p.next_trigger p.evidence ≡ true
      → Queued state.session_id event p.next_trigger 1 none work
      → recover_paused state event topic (recovered_topic topic p.action p.evidence work)
        ≡ ok next_state
      → Carried next_state event.sequence
  unfolding recover_paused
  paused_recovery topic target p work l v n o ve r q e =
      let (i, k, t) = recovered_shape hex state event c topic p.action p.evidence work in
      subst (λ s. Carried s event.sequence) (ground arith)
        (resumed_state-Carried state event c topic.topic_run_id
          (recovered_topic topic p.action p.evidence work) ConversationPhase.waiting_host l
          (ground arith) i n (inl (refl, t, (work, k, q.status)))
          (run_recovered hex state event c topic TopicLifecycle.paused target p work
            (λ d. ground arith) v o ve r q))

  session_recovery :
      (target : DeadWork) (p : WorkRecoveryRequested) (work : CurrentWorkState)
      → target.topic ≡ none
      → recovers target p.action p.next_trigger p.evidence ≡ true
      → Queued state.session_id event p.next_trigger 1 none work
      → recover_session state event target work ≡ ok next_state
      → Carried next_state event.sequence
  unfolding recover_session recovers
  session_recovery target p work n r q e =
      subst (λ s. Carried s event.sequence) (ground arith)
        (session_recovered-Carried hex state event c target.work work p.next_trigger (ground arith)
          (ground arith) (ground arith) q)

  -- The work item of a target, by the place where it stands.
  recovery_at :
      (target : DeadWork) (p : WorkRecoveryRequested) (work : CurrentWorkState)
      → state.lifecycle ≡ SessionLifecycle.opened
      → dead_work_target state p.dead_work_id ≡ some target
      → valid_evidence p.evidence ≡ true
      → recovers target p.action p.next_trigger p.evidence ≡ true
      → Queued state.session_id event p.next_trigger 1 none work
      → reduce_recovery_on state target event p work ≡ ok next_state
      → Carried next_state event.sequence
  unfolding reduce_recovery_on dead_work_target session_target active_target
  recovery_at target p work l m ve r q e =
      elim (Option-cases (session_target p.dead_work_id state)) [
        | inr (found, s) ↦ session_recovery target p work (ground arith) r q (ground arith)
        | inl no_session ↦ elim (Option-cases (active_target p.dead_work_id state)) [
          | inr (found, s) ↦ elim (Option-cases state.active_topic) [
            | inl missing ↦ ground arith
            | inr (topic, a) ↦
                active_recovery topic target p work a (ground arith) ve r q (ground arith)
          ]
          | inl no_active ↦
              let (topic, g, t, o, d) =
                paused_parts state.paused_topics p.dead_work_id target (ground arith) in
              let (v, f, n) = keep_one _ _ state.paused_topics topic g c.paused in
              paused_recovery topic target p work l v n o ve r q (ground arith)
        ]
      ]

  pub work_recovery_requested-Carried :
      (p : WorkRecoveryRequested)
      → state.lifecycle ≡ SessionLifecycle.opened
      → reduce_work_recovery_requested state event p ≡ ok next_state
      → Carried next_state event.sequence
  unfolding reduce_work_recovery_requested reduce_recovery
  work_recovery_requested-Carried p l e =
      elim (Option-cases (dead_work_target state p.dead_work_id)) [
        | inl missing ↦ ground arith
        | inr (target, m) ↦ elim (Queued-cases state.session_id event p.next_trigger hex) [
          | inl (code, q) ↦ ground arith
          | inr (work, q, w) ↦
              recovery_at target p work l m (ground arith) (ground arith) w (ground arith)
        ]
      ]
