-- ===== src/Laws/Valid/Failures.antt =====
-- The events of a failing work item leave a valid snapshot.
use mathlib.Core.Path.{subst}
use x_sync.Prelude.{
  >>=-eq-ok, Option-cases, [], arith, inl, inr, none, ok, refl, some, true, ◌+◌, ◌>>=◌, ◌∷◌, ◌≡◌,
}
use x_sync.Domain.{
  CommittedDialogueEvent, ConversationPhase, CurrentWorkState, DialogueState, WorkDeadLettered,
  WorkFailed, WorkRecoveryAction, WorkRequeued,
}
use x_sync.Decide.Work.{current_nonterminal_work}
use x_sync.Identity.{HasHexDigests, Sha256}
use x_sync.Laws.Valid.Carry.{Carried}
use x_sync.Laws.Valid.Replaced.{
  Held, dead_work-Replaces, failed_work-Replaces, no_active_topic, replaced-Carried,
  requeued_bounds, requeued_work-Replaces, session_replaced-Carried, topic_replaced-Carried,
  waiting_Held,
}
use x_sync.Laws.Valid.Work.{queued_work_from_event-Queued}
use x_sync.Reduce.Envelope.{advance}
use x_sync.Reduce.Work.{
  dead_work, failed_work, reduce_work_dead_lettered, reduce_work_failed, reduce_work_requeued,
  replace_work,
}
use x_sync.Validate.Work.{
  allowed_recovery_actions, automatic_retry_allowed, queued_work_from_event, retry_trigger_matches,
}

module _ ⦃h : Sha256⦄ (hex : HasHexDigests h) (state : DialogueState)
    (event : CommittedDialogueEvent) (c : Carried state event.sequence)
    {next_state : DialogueState} where
  pub work_failed-Carried :
      (p : WorkFailed)
      → reduce_work_failed state event p ≡ ok next_state
      → Carried next_state event.sequence
  unfolding reduce_work_failed
  work_failed-Carried p e = elim (Option-cases (current_nonterminal_work state)) [
    | inl missing ↦ ground arith
    | inr (work, m) ↦
        let (held, v) = waiting_Held state event c work (ground arith) m in
        replaced-Carried state event c work (failed_work work p.failure) (ground arith) held
          (λ actions.
            failed_work-Replaces state event c work p.failure actions v (ground arith)
              (ground arith))
          (ground arith)
  ]

  requeued_facts :
      (p : WorkRequeued) (work : CurrentWorkState)
      → current_nonterminal_work state ≡ some work
      → reduce_work_requeued state event p ≡ ok next_state
      → (state.phase ≡ ConversationPhase.waiting_host)
        × (some p.failure ≡ work.last_failure)
        × (p.next_attempt ≡ work.attempt + 1)
        × (automatic_retry_allowed work ≡ true)
        × (retry_trigger_matches work.trigger p.next_trigger ≡ true)
        × ((queued_work_from_event state.session_id event p.next_trigger p.next_attempt
                (some p.failure)
              >>= (λ next_work. replace_work (advance state event) work next_work))
            ≡ ok next_state)
  unfolding reduce_work_requeued
  requeued_facts p work m e = ground arith

  pub work_requeued-Carried :
      (p : WorkRequeued)
      → reduce_work_requeued state event p ≡ ok next_state
      → Carried next_state event.sequence
  unfolding reduce_work_requeued
  work_requeued-Carried p e = elim (Option-cases (current_nonterminal_work state)) [
    | inl missing ↦ ground arith
    | inr (work, m) ↦
        let (w, f, n, a, t, x) = requeued_facts p work m e in
        let (held, v) = waiting_Held state event c work w m in
        let (next_work, q, r) = >>=-eq-ok _ _ x in
        let (lo, hi, vf) = requeued_bounds state event c p work v a f n in
        let d =
          queued_work_from_event-Queued state.session_id event p.next_trigger p.next_attempt
            (some p.failure) hex q lo hi vf (inr refl) in
        replaced-Carried state event c work next_work w held
          (λ actions.
            requeued_work-Replaces state event c work next_work p.next_trigger p.next_attempt
              p.failure actions t d)
          r
  ]

  pub work_dead_lettered-Carried :
      (p : WorkDeadLettered)
      → state.topic_clarification ≡ none
      → reduce_work_dead_lettered state event p ≡ ok next_state
      → Carried next_state event.sequence
  unfolding reduce_work_dead_lettered allowed_recovery_actions replace_work advance Held
  work_dead_lettered-Carried p k e = elim (Option-cases (current_nonterminal_work state)) [
    | inl missing ↦ ground arith
    | inr (work, m) ↦
        let (held, v) = waiting_Held state event c work (ground arith) m in
        elim held [
          | inl s ↦
              let n = no_active_topic state event c work (ground arith) s in
              subst (λ s. Carried s event.sequence) (ground arith)
                (session_replaced-Carried state event c work
                  (dead_work work (WorkRecoveryAction.retry ∷ []))
                  ConversationPhase.recoverable_error (ground arith) s
                  (dead_work-Replaces state event c work _ v (ground arith) (inl refl)) (inr k))
          | inr (s, (topic, a, o)) ↦
              subst (λ s. Carried s event.sequence) (ground arith)
                (topic_replaced-Carried state event c topic work
                  (dead_work work (WorkRecoveryAction.retry ∷ WorkRecoveryAction.reground ∷ []))
                  ConversationPhase.recoverable_error (ground arith) a o
                  (dead_work-Replaces state event c work _ v (ground arith) (inr refl)))
        ]
  ]
