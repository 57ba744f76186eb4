-- ===== src/Laws/Valid/Return.antt =====
-- The events that bring a paused Run back leave a valid snapshot.
use mathlib.Core.Path.{subst}
use x_sync.Prelude.{
  Bool-cases, Option, Option-cases, String, String-eq, all-keep, arith, count, false, inl, inr,
  none, ok, refl, some, true, ◌!=◌, ◌==◌, ◌≡◌, ◌≤◌, ◌⊎◌,
}
use x_sync.Domain.{
  AgentTurnResult, CommittedDialogueEvent, ConversationPhase, CurrentWorkState, DialogueState,
  SessionLifecycle, TopicLifecycle, TopicResumed, TopicRunState, TriggerBinding, TriggerKind,
  WorkStatus, open_question_id,
}
use x_sync.Decide.Export.{single}
use x_sync.Decide.Guards.{is_degraded}
use x_sync.Decide.Resume.{requires_reground}
use x_sync.Identity.{HasHexDigests, Sha256}
use x_sync.Laws.Valid.Carry.{Carried}
use x_sync.Laws.Valid.Ids.{
  count-other_runs, places, places_of_valid_topic_ids, single_match, valid_topic_ids_of_places,
}
use x_sync.Laws.Valid.Reground.{refreshed, refreshed-valid, regrounded-valid}
use x_sync.Laws.Valid.Turn.{kept-valid, same_evidence-topic_evidence}
use x_sync.Laws.Valid.Work.{Queued-cases}
use x_sync.Reduce.Envelope.{advance}
use x_sync.Reduce.Resume.{
  matching_runs, other_runs, reactivated, reduce_kept, reduce_reground, reduce_resumed_on,
  reduce_resumed_work, reduce_topic_resumed, regrounded, resumed_state,
}
use x_sync.Rules.{is_publishable}
use x_sync.Validate.Shapes.{valid_evidence}
use x_sync.Validate.State.{
  active_work, has_open_turn, holds_one_work, is_answerable, is_waiting_status, run_ids,
  valid_clarification_place, valid_ended, valid_new, valid_phase, valid_selection,
  valid_session_lifecycle,
}
use x_sync.Validate.Topic.{valid_topic_state}

module _ ⦃h : Sha256⦄ (state : DialogueState) (event : CommittedDialogueEvent)
    (c : Carried state event.sequence) where
  -- A Run leaves the paused ones under its id, and no other Run has the id.
  resumed_places :
      (topic_run_id : String) (topic : TopicRunState)
      → topic.topic_run_id ≡ topic_run_id
      → 1 ≤ count topic_run_id (run_ids state.paused_topics)
      → state.active_topic ≡ none
      → (x : String)
      → places x (other_runs topic_run_id state.paused_topics) state.completed_topics (some topic)
        ≤ 1
  resumed_places topic_run_id topic e k a x = elim (Bool-cases (x == topic_run_id)) [
    | inl same ↦ ground (
      arith,
      places_of_valid_topic_ids state topic_run_id c.topic_ids,
      count-other_runs x topic_run_id state.paused_topics,
    )
    | inr other ↦ ground (
      arith,
      places_of_valid_topic_ids state x c.topic_ids,
      count-other_runs x topic_run_id state.paused_topics,
    )
  ]

  -- What the phase of the active Run asks of it.
  abbrev pub Placed : ConversationPhase → TopicRunState → Type 0
  Placed phase topic =
      ((phase ≡ ConversationPhase.waiting_host)
        × (topic.current_agent_turn ≡ none)
        × ((work : CurrentWorkState) × (topic.work ≡ some work)
            × (work.status ≡ WorkStatus.queued)))
      ⊎ ((phase ≡ ConversationPhase.awaiting_user)
          × ((turn : AgentTurnResult) × (topic.current_agent_turn ≡ some turn))
          × (topic.work ≡ none)
          × (is_publishable topic.evidence_health ≡ true))

  pub resumed_state-Carried :
      (topic_run_id : String) (topic : TopicRunState) (phase : ConversationPhase)
      → state.lifecycle ≡ SessionLifecycle.opened
      → state.phase ≡ ConversationPhase.none_phase
      → topic.topic_run_id ≡ topic_run_id
      → 1 ≤ count topic_run_id (run_ids state.paused_topics)
      → Placed phase topic
      → valid_topic_state topic TopicLifecycle.active state.session_id event.sequence ≡ true
      → Carried (resumed_state state event topic_run_id topic phase) event.sequence
  unfolding advance resumed_state valid_session_lifecycle valid_new valid_ended valid_phase
      valid_selection valid_clarification_place holds_one_work is_waiting_status active_work
      has_open_turn is_answerable other_runs
  resumed_state-Carried topic_run_id topic phase l n e k placed v = ground (
    arith,
    c,
    all-keep
        (λ topic. valid_topic_state topic TopicLifecycle.paused state.session_id event.sequence)
        (λ (item : TopicRunState). item.topic_run_id != topic_run_id) state.paused_topics c.paused,
    valid_topic_ids_of_places (resumed_state state event topic_run_id topic phase),
    resumed_places topic_run_id topic e k,
  )

  -- A paused Run that is found under an id.
  found :
      (topic_run_id : String) (topic : TopicRunState)
      → single (matching_runs topic_run_id state.paused_topics) ≡ some topic
      → (topic.topic_run_id ≡ topic_run_id)
        × (valid_topic_state topic TopicLifecycle.paused state.session_id event.sequence ≡ true)
        × (1 ≤ count topic_run_id (run_ids state.paused_topics))
  found topic_run_id topic e =
      single_match
        (λ topic. valid_topic_state topic TopicLifecycle.paused state.session_id event.sequence)
        topic_run_id state.paused_topics topic e c.paused

module _ ⦃h : Sha256⦄ (hex : HasHexDigests h) (state : DialogueState)
    (event : CommittedDialogueEvent) (c : Carried state event.sequence)
    {next_state : DialogueState} where
  reground-Carried :
      (p : TopicResumed) (topic : TopicRunState) (trigger : Option TriggerBinding)
      → state.lifecycle ≡ SessionLifecycle.opened
      → state.phase ≡ ConversationPhase.none_phase
      → valid_evidence p.evidence ≡ true
      → single (matching_runs p.topic_run_id state.paused_topics) ≡ some topic
      → reduce_reground state topic event p trigger ≡ ok next_state
      → Carried next_state event.sequence
  unfolding reduce_reground regrounded reactivated
  reground-Carried p topic none l n ve m e = ground arith
  reground-Carried p topic (some trigger) l n ve m e =
      elim (Queued-cases state.session_id event trigger hex) [
        | inl (code, q) ↦ ground arith
        | inr (work, q, w) ↦
            let (i, v, k) = found state event c p.topic_run_id topic m in
            let r =
              regrounded-valid state.session_id event topic TopicLifecycle.paused p.evidence trigger
                TriggerKind.reground work (λ d. ground arith) v ve (ground arith) w in
            subst (λ s. Carried s event.sequence) (ground arith)
              (resumed_state-Carried state event c p.topic_run_id
                (regrounded (reactivated topic p.evidence) work) ConversationPhase.waiting_host l n
                i k (inl (refl, refl, (work, refl, w.status))) r)
      ]

  work-Carried :
      (p : TopicResumed) (topic : TopicRunState) (saved : CurrentWorkState)
      (trigger : Option TriggerBinding)
      → state.lifecycle ≡ SessionLifecycle.opened
      → state.phase ≡ ConversationPhase.none_phase
      → valid_evidence p.evidence ≡ true
      → topic.current_agent_turn ≡ none
      → single (matching_runs p.topic_run_id state.paused_topics) ≡ some topic
      → reduce_resumed_work state topic saved event p trigger ≡ ok next_state
      → Carried next_state event.sequence
  unfolding reduce_resumed_work reactivated
  work-Carried p topic saved none l n ve t m e = ground arith
  work-Carried p topic saved (some trigger) l n ve t m e =
      elim (Queued-cases state.session_id event trigger hex) [
        | inl (code, q) ↦ ground arith
        | inr (work, q, w) ↦
            let (i, v, k) = found state event c p.topic_run_id topic m in
            let r =
              refreshed-valid state.session_id event topic TopicLifecycle.paused p.evidence trigger
                saved.trigger.kind work (λ d. ground arith) v ve (ground arith) w in
            subst (λ s. Carried s event.sequence) (ground arith)
              (resumed_state-Carried state event c p.topic_run_id
                (refreshed state.session_id event topic p.evidence work)
                ConversationPhase.waiting_host l n i k (inl (refl, refl, (work, refl, w.status))) r)
      ]

  kept-Carried :
      (p : TopicResumed) (topic : TopicRunState)
      → state.lifecycle ≡ SessionLifecycle.opened
      → state.phase ≡ ConversationPhase.none_phase
      → valid_evidence p.evidence ≡ true
      → requires_reground p.evidence topic ≡ false
      → single (matching_runs p.topic_run_id state.paused_topics) ≡ some topic
      → reduce_kept state topic event p ≡ ok next_state
      → Carried next_state event.sequence
  unfolding reduce_kept reactivated open_question_id requires_reground is_publishable is_degraded
  kept-Carried p topic l n ve g m e = elim (Option-cases topic.current_agent_turn) [
    | inl idle ↦ elim (Option-cases topic.work) [
      | inl missing ↦ ground arith
      | inr (saved, o) ↦ work-Carried p topic saved p.resumed_trigger l n ve idle m (ground arith)
    ]
    | inr (turn, o) ↦
        let (i, v, k) = found state event c p.topic_run_id topic m in
        let r =
          kept-valid state.session_id event topic p.evidence v ve
            (same_evidence-topic_evidence p.evidence topic (ground arith)) (ground arith) in
        subst (λ s. Carried s event.sequence) (ground arith)
          (resumed_state-Carried state event c p.topic_run_id (reactivated topic p.evidence)
            ConversationPhase.awaiting_user l n i k
            (inr (refl, (turn, o), ground arith, ground arith)) r)
  ]

  pub topic_resumed-Carried :
      (p : TopicResumed)
      → state.lifecycle ≡ SessionLifecycle.opened
      → reduce_topic_resumed state event p ≡ ok next_state
      → Carried next_state event.sequence
  unfolding reduce_topic_resumed reduce_resumed_on
  topic_resumed-Carried p l e =
      elim (Option-cases (single (matching_runs p.topic_run_id state.paused_topics))) [
        | inl missing ↦ ground arith
        | inr (topic, m) ↦ elim (Bool-cases (requires_reground p.evidence topic)) [
          | inl g ↦
              reground-Carried p topic p.resumed_trigger l (ground arith) (ground arith) m
                (ground arith)
          | inr g ↦ kept-Carried p topic l (ground arith) (ground arith) g m (ground arith)
        ]
      ]
