-- ===== src/Laws/Valid/Replaced.antt =====
-- A snapshot in which a work item is replaced by its next one stays valid.
use mathlib.Core.Path.{subst}
use x_sync.Prelude.{
  List, Option-cases, [], arith, has, inl, inr, is_distinct, none, ok, refl, some, true, ℕ, ◌+◌,
  ◌∷◌, ◌≡◌, ◌≤◌, ◌⊎◌,
}
use x_sync.Domain.{
  CommittedDialogueEvent, ConversationPhase, CurrentWorkState, DialogueState, TopicLifecycle,
  TopicRunState, TriggerBinding, WorkFailure, WorkRecoveryAction, WorkRequeued, WorkStatus,
}
use x_sync.Decide.Work.{current_nonterminal_work, is_nonterminal, nonterminal, only}
use x_sync.Identity.{Sha256}
use x_sync.Laws.Valid.Carry.{Carried}
use x_sync.Laws.Valid.Ids.{valid_topic_ids_of_places}
use x_sync.Laws.Valid.Run.{RunParts-valid, valid-RunParts}
use x_sync.Laws.Valid.Topic.{active_valid, no_session_work, same_places}
use x_sync.Laws.Valid.Work.{Queued}
use x_sync.Reduce.Envelope.{advance}
use x_sync.Reduce.Work.{dead_work, failed_work, replace_work, with_work}
use x_sync.Validate.Shapes.{valid_trigger, valid_work_failure}
use x_sync.Validate.State.{
  active_work, all_topic_ids, has_open_turn, holds_one_work, is_dead_status, is_waiting_status,
  valid_clarification_place, valid_ended, valid_new, valid_phase, valid_selection,
  valid_session_kind, valid_session_lifecycle, valid_session_work, valid_topic_ids,
}
use x_sync.Validate.Topic.{
  topic_evidence, valid_learner_turns, valid_lifecycle, valid_topic_state, valid_topic_work,
  valid_work_status,
}
use x_sync.Validate.Work.{
  automatic_retry_allowed, retry_trigger_matches, valid_current_work, valid_status,
}

module _ ⦃h : Sha256⦄ (state : DialogueState) (event : CommittedDialogueEvent)
    (c : Carried state event.sequence) where
  -- A work item in the place of another, in the phase `phase`.
  pub record Replaces (old new : CurrentWorkState) (phase : ConversationPhase)
      (actions : List WorkRecoveryAction) : Type 0 where
    valid : valid_current_work new state.session_id event.sequence ≡ true
    kind : new.trigger.kind ≡ old.trigger.kind
    contract_digest : new.trigger.contract_digest ≡ old.trigger.contract_digest
    evidence_digest : new.trigger.evidence_digest ≡ old.trigger.evidence_digest
    placed :
        ((phase ≡ ConversationPhase.waiting_host) × (is_waiting_status new.status ≡ true))
        ⊎ ((phase ≡ ConversationPhase.recoverable_error)
            × (new.status ≡ WorkStatus.dead_letter)
            × (new.allowed_recovery_actions ≡ actions))

  -- With work of the Session in hand no Run is active.
  pub no_active_topic :
      (work : CurrentWorkState)
      → state.phase ≡ ConversationPhase.waiting_host
      → state.session_work ≡ some work
      → state.active_topic ≡ none
  unfolding valid_phase holds_one_work active_work has_open_turn valid_topic_state valid_lifecycle
  no_active_topic work w s = ground (arith, c.phase, c.active)

  abbrev pub session_replaced : CurrentWorkState → ConversationPhase → DialogueState
  session_replaced new phase =
      let next_state = advance state event in
      record next_state { session_work = some new; phase = phase }

  pub session_replaced-Carried :
      (old new : CurrentWorkState) (phase : ConversationPhase)
      → state.phase ≡ ConversationPhase.waiting_host
      → state.session_work ≡ some old
      → Replaces old new phase (WorkRecoveryAction.retry ∷ [])
      → ((phase ≡ ConversationPhase.waiting_host) ⊎ (state.topic_clarification ≡ none))
      → Carried (session_replaced new phase) event.sequence
  unfolding advance valid_session_lifecycle valid_new valid_ended valid_phase valid_selection
      valid_clarification_place valid_topic_ids all_topic_ids holds_one_work is_waiting_status
      is_dead_status active_work has_open_turn valid_session_work valid_session_kind valid_trigger
      valid_current_work valid_topic_state valid_lifecycle
  session_replaced-Carried old new phase w s r k =
      let a = no_active_topic old w s in ground (arith, c, r)

  with_work-valid :
      (topic : TopicRunState) (old new : CurrentWorkState) (phase : ConversationPhase)
      → topic.work ≡ some old
      → valid_topic_state topic TopicLifecycle.active state.session_id event.sequence ≡ true
      → Replaces old new phase (WorkRecoveryAction.retry ∷ WorkRecoveryAction.reground ∷ [])
      → valid_topic_state
          (with_work topic new)
          TopicLifecycle.active
          state.session_id
          event.sequence
        ≡ true
  unfolding topic_evidence valid_learner_turns valid_lifecycle valid_topic_work valid_work_status
      valid_trigger valid_current_work is_waiting_status
  with_work-valid topic old new phase o v r =
      let p = valid-RunParts topic TopicLifecycle.active state.session_id event.sequence v in
      RunParts-valid (with_work topic new) TopicLifecycle.active state.session_id event.sequence
        (record {
          lifecycle_eq = p.lifecycle_eq;
          contract = p.contract;
          run_id = p.run_id;
          evidence = p.evidence;
          work = r.valid;
          covers = p.covers;
          gates = p.gates;
          distinct = p.distinct;
          entries = p.entries;
          turns = p.turns;
          life = ground (arith, p.life);
          turn = ground (arith, p.life);
          topic_work = ground (arith, p.topic_work, r);
        })

  abbrev topic_replaced : TopicRunState → ConversationPhase → DialogueState
  topic_replaced topic phase =
      let next_state = advance state event in
      record next_state { active_topic = some topic; phase = phase }

  pub topic_replaced-Carried :
      (topic : TopicRunState) (old new : CurrentWorkState) (phase : ConversationPhase)
      → state.phase ≡ ConversationPhase.waiting_host
      → state.active_topic ≡ some topic
      → topic.work ≡ some old
      → Replaces old new phase (WorkRecoveryAction.retry ∷ WorkRecoveryAction.reground ∷ [])
      → Carried (topic_replaced (with_work topic new) phase) event.sequence
  unfolding advance valid_session_lifecycle valid_new valid_ended valid_phase valid_selection
      valid_clarification_place holds_one_work is_waiting_status is_dead_status active_work
      has_open_turn
  topic_replaced-Carried topic old new phase w a o r =
      let (s, x, y, z, l) = no_session_work state event c topic a in
      let v = with_work-valid topic old new phase o (active_valid state event c topic a) r in
      ground (
        arith,
        c,
        r,
        valid_topic_ids_of_places (topic_replaced (with_work topic new) phase)
            (same_places state event c topic (with_work topic new) a refl),
      )

  pub failed_work-Replaces :
      (work : CurrentWorkState) (failure : WorkFailure) (actions : List WorkRecoveryAction)
      → valid_current_work work state.session_id event.sequence ≡ true
      → work.status ≡ WorkStatus.queued
      → valid_work_failure failure ≡ true
      → Replaces work (failed_work work failure) ConversationPhase.waiting_host actions
  unfolding failed_work valid_current_work valid_status is_waiting_status
  failed_work-Replaces work failure actions v q f = record {
    valid = ground arith;
    kind = refl;
    contract_digest = refl;
    evidence_digest = refl;
    placed = ground arith;
  }

  pub dead_work-Replaces :
      (work : CurrentWorkState) (actions : List WorkRecoveryAction)
      → valid_current_work work state.session_id event.sequence ≡ true
      → work.status ≡ WorkStatus.failed
      → (actions ≡ WorkRecoveryAction.retry ∷ [])
        ⊎ (actions ≡ WorkRecoveryAction.retry ∷ WorkRecoveryAction.reground ∷ [])
      → Replaces work (dead_work work actions) ConversationPhase.recoverable_error actions
  unfolding dead_work valid_current_work valid_status is_distinct has
  dead_work-Replaces work actions v q a = record {
    valid = ground arith;
    kind = refl;
    contract_digest = refl;
    evidence_digest = refl;
    placed = ground arith;
  }

  pub requeued_work-Replaces :
      (work next_work : CurrentWorkState) (trigger : TriggerBinding) (attempt : ℕ)
      (failure : WorkFailure) (actions : List WorkRecoveryAction)
      → retry_trigger_matches work.trigger trigger ≡ true
      → Queued state.session_id event trigger attempt (some failure) next_work
      → Replaces work next_work ConversationPhase.waiting_host actions
  unfolding retry_trigger_matches is_waiting_status
  requeued_work-Replaces work next_work trigger attempt failure actions m q = record {
    valid = q.valid;
    kind = ground (arith, q);
    contract_digest = ground (arith, q);
    evidence_digest = ground (arith, q);
    placed = ground (arith, q);
  }

  -- The work item that waits for the host, of the Session or of its active Run.
  unfoldable pub Held : CurrentWorkState → Type 0
  Held work =
      (state.session_work ≡ some work)
      ⊎ ((state.session_work ≡ none)
          × ((topic : TopicRunState) × (state.active_topic ≡ some topic)
              × (topic.work ≡ some work)))

  pub waiting_Held :
      (work : CurrentWorkState)
      → state.phase ≡ ConversationPhase.waiting_host
      → current_nonterminal_work state ≡ some work
      → Held work × (valid_current_work work state.session_id event.sequence ≡ true)
  unfolding Held current_nonterminal_work nonterminal only is_nonterminal valid_phase holds_one_work
      active_work valid_topic_state
  waiting_Held work w e = elim (Option-cases state.session_work) [
    | inl missing ↦ elim (Option-cases state.active_topic) [
      | inl none_active ↦ ground (arith, c.phase)
      | inr (topic, a) ↦
          (inr (missing, (topic, a, ground (arith, c.phase))), ground (arith, c.phase, c.active))
    ]
    | inr (held, s) ↦ (inl (ground (arith, c.phase)), ground (arith, c.phase, c.session_work))
  ]

  -- What `_replace_work` gives for the held work item.
  pub replaced-Carried :
      (work new : CurrentWorkState) {next_state : DialogueState}
      → state.phase ≡ ConversationPhase.waiting_host
      → Held work
      → ((actions : List WorkRecoveryAction)
          → Replaces work new ConversationPhase.waiting_host actions)
      → replace_work (advance state event) work new ≡ ok next_state
      → Carried next_state event.sequence
  unfolding Held replace_work advance
  replaced-Carried work new w (inl s) r e =
      subst (λ s. Carried s event.sequence) (ground arith)
        (session_replaced-Carried work new ConversationPhase.waiting_host w s (r _) (inl refl))
  replaced-Carried work new w (inr (s, (topic, a, o))) r e =
      subst (λ s. Carried s event.sequence) (ground arith)
        (topic_replaced-Carried topic work new ConversationPhase.waiting_host w a o (r _))

  -- The next attempt of a requeued work item is one of the three.
  pub requeued_bounds :
      (p : WorkRequeued) (work : CurrentWorkState)
      → valid_current_work work state.session_id event.sequence ≡ true
      → automatic_retry_allowed work ≡ true
      → some p.failure ≡ work.last_failure
      → p.next_attempt ≡ work.attempt + 1
      → (1 ≤ p.next_attempt) × (p.next_attempt ≤ 3) × (valid_work_failure p.failure ≡ true)
  unfolding valid_current_work automatic_retry_allowed
  requeued_bounds p work v a f n = ground arith
