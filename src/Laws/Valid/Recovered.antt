-- ===== src/Laws/Valid/Recovered.antt =====
-- A Run or a Session whose dead work item is recovered stays valid.
use x_sync.Prelude.{
  Bool, Bool-cases, List, String, String-eq, [], all, arith, count, inl, inr, keep, none, refl,
  some, true, ◌∷◌, ◌≡◌, ◌≢◌, ◌≤◌,
}
use x_sync.Domain.{
  CommittedDialogueEvent, ConversationPhase, CurrentWorkState, DialogueState, EvidenceCheck,
  TopicLifecycle, TopicRunState, TriggerBinding, WorkRecoveryAction, WorkRecoveryRequested,
}
use x_sync.Decide.Guards.{reground_trigger_matches}
use x_sync.Decide.Work.{DeadWork, holds_dead_work, paused_target, recovers}
use x_sync.Identity.{HasHexDigests, Sha256, is_canonical_trigger_binding}
use x_sync.Laws.Valid.Carry.{Carried}
use x_sync.Laws.Valid.Reground.{refreshed-valid, regrounded-valid}
use x_sync.Laws.Valid.Replaced.{session_replaced}
use x_sync.Laws.Valid.Work.{Queued}
use x_sync.Reduce.Envelope.{advance}
use x_sync.Reduce.Recover.{recovered_topic}
use x_sync.Reduce.Resume.{reactivated, regrounded}
use x_sync.Validate.Shapes.{valid_evidence, valid_trigger}
use x_sync.Validate.State.{
  active_work, all_topic_ids, has_open_turn, holds_one_work, is_dead_status, is_waiting_status,
  run_ids, valid_clarification_place, valid_ended, valid_new, valid_phase, valid_selection,
  valid_session_kind, valid_session_lifecycle, valid_session_work, valid_topic_ids,
}
use x_sync.Validate.Topic.{valid_lifecycle, valid_topic_state, valid_topic_work}
use x_sync.Validate.Work.{retry_trigger_matches}

-- The Run that a target names, with its dead work item.
pub keep_one :
    (f p : TopicRunState → Bool) (runs : List TopicRunState) (topic : TopicRunState)
    → keep f runs ≡ topic ∷ []
    → all p runs ≡ true
    → (p topic ≡ true)
      × (f topic ≡ true)
      × (1 ≤ count ⦃e = String-eq⦄ topic.topic_run_id (run_ids runs))
unfolding keep all
keep_one f p [] topic e a = ground arith
keep_one f p (x ∷ xs) topic e a = elim (Bool-cases (f x)) [
  | inl same ↦
      let q : x ≡ topic = ground arith in (ground (arith, q), ground (arith, q), ground (arith, q))
  | inr other ↦ ground (arith, keep_one f p xs topic)
]

-- The parts of a target among the paused Runs.
pub paused_parts :
    (runs : List TopicRunState) (work_id : String) (target : DeadWork)
    → paused_target (keep (λ (topic : TopicRunState). holds_dead_work work_id topic.work) runs)
      ≡ some target
    → (topic : TopicRunState) × (keep
          (λ (topic : TopicRunState). holds_dead_work work_id topic.work)
          runs
        ≡ topic ∷ [])
      × (target.topic ≡ some topic)
      × (topic.work ≡ some target.work)
      × (target.paused ≡ true)
unfolding paused_target
paused_parts runs work_id target e =
    go (keep (λ (topic : TopicRunState). holds_dead_work work_id topic.work) runs) refl
  where
    go :
        (found : List TopicRunState)
        → keep (λ (topic : TopicRunState). holds_dead_work work_id topic.work) runs ≡ found
        → (topic : TopicRunState) × (keep
              (λ (topic : TopicRunState). holds_dead_work work_id topic.work)
              runs
            ≡ topic ∷ [])
          × (target.topic ≡ some topic)
          × (topic.work ≡ some target.work)
          × (target.paused ≡ true)
    go [] g = ground arith
    go (topic ∷ []) g = (topic, g, ground arith, ground arith, ground arith)
    go (topic ∷ other ∷ more) g = ground arith

module _ ⦃h : Sha256⦄ (hex : HasHexDigests h) (state : DialogueState)
    (event : CommittedDialogueEvent) (c : Carried state event.sequence) where
  recovered-valid :
      (topic : TopicRunState) (lifecycle : TopicLifecycle) (action : WorkRecoveryAction)
      (evidence : EvidenceCheck) (trigger : TriggerBinding) (work : CurrentWorkState)
      → lifecycle ≢ TopicLifecycle.completed
      → valid_topic_state topic lifecycle state.session_id event.sequence ≡ true
      → valid_evidence evidence ≡ true
      → valid_trigger trigger trigger.kind
          (some topic.contract.contract_digest)
          evidence.evidence_digest
        ≡ true
      → Queued state.session_id event trigger 1 none work
      → valid_topic_state
          (recovered_topic topic action evidence work)
          TopicLifecycle.active
          state.session_id
          event.sequence
        ≡ true
  unfolding recovered_topic
  recovered-valid topic lifecycle WorkRecoveryAction.retry evidence trigger work n v ve vt w =
      refreshed-valid state.session_id event topic lifecycle evidence trigger trigger.kind work n v
        ve vt w
  recovered-valid topic lifecycle WorkRecoveryAction.reground evidence trigger work n v ve vt w =
      regrounded-valid state.session_id event topic lifecycle evidence trigger trigger.kind work n v
        ve vt w

  held_topic_work :
      (topic : TopicRunState) (lifecycle : TopicLifecycle) (work : CurrentWorkState)
      → valid_topic_state topic lifecycle state.session_id event.sequence ≡ true
      → topic.work ≡ some work
      → valid_topic_work topic lifecycle work ≡ true
  unfolding valid_topic_state
  held_topic_work topic lifecycle work v o = ground arith

  -- The trigger of a recovery fits the Run of the dead work item.
  held_contract :
      (topic : TopicRunState) (lifecycle : TopicLifecycle) (work : CurrentWorkState)
      → valid_topic_work topic lifecycle work ≡ true
      → work.trigger.contract_digest ≡ some topic.contract.contract_digest
  unfolding valid_topic_work valid_trigger
  held_contract topic lifecycle work v = ground arith

  recovered_digests :
      (target : DeadWork) (action : WorkRecoveryAction) (evidence : EvidenceCheck)
      (trigger : TriggerBinding)
      → recovers target action trigger evidence ≡ true
      → (trigger.contract_digest ≡ target.work.trigger.contract_digest)
        × (trigger.evidence_digest ≡ evidence.evidence_digest)
  unfolding recovers retry_trigger_matches reground_trigger_matches
  recovered_digests target WorkRecoveryAction.retry evidence trigger r =
      (ground arith, ground arith)
  recovered_digests target WorkRecoveryAction.reground evidence trigger r =
      (ground arith, ground arith)

  recovers-trigger :
      (topic : TopicRunState) (lifecycle : TopicLifecycle) (target : DeadWork)
      (action : WorkRecoveryAction) (evidence : EvidenceCheck) (trigger : TriggerBinding)
      → valid_topic_work topic lifecycle target.work ≡ true
      → is_canonical_trigger_binding trigger ≡ true
      → recovers target action trigger evidence ≡ true
      → valid_trigger trigger trigger.kind
          (some topic.contract.contract_digest)
          evidence.evidence_digest
        ≡ true
  unfolding valid_trigger
  recovers-trigger topic lifecycle target action evidence trigger v k r =
      let d = held_contract topic lifecycle target.work v in
      let (x, y) = recovered_digests target action evidence trigger r in ground arith

  pub run_recovered :
      (topic : TopicRunState) (lifecycle : TopicLifecycle) (target : DeadWork)
      (p : WorkRecoveryRequested) (work : CurrentWorkState)
      → lifecycle ≢ TopicLifecycle.completed
      → valid_topic_state topic lifecycle state.session_id event.sequence ≡ true
      → topic.work ≡ some target.work
      → valid_evidence p.evidence ≡ true
      → recovers target p.action p.next_trigger p.evidence ≡ true
      → Queued state.session_id event p.next_trigger 1 none work
      → valid_topic_state
          (recovered_topic topic p.action p.evidence work)
          TopicLifecycle.active
          state.session_id
          event.sequence
        ≡ true
  run_recovered topic lifecycle target p work n v o ve r q =
      recovered-valid topic lifecycle p.action p.evidence p.next_trigger work n v ve
        (recovers-trigger topic lifecycle target p.action p.evidence p.next_trigger
          (held_topic_work topic lifecycle target.work v o) q.canonical r)
        q

  pub recovered_shape :
      (topic : TopicRunState) (action : WorkRecoveryAction) (evidence : EvidenceCheck)
      (work : CurrentWorkState)
      → ((recovered_topic topic action evidence work).topic_run_id ≡ topic.topic_run_id)
        × ((recovered_topic topic action evidence work).work ≡ some work)
        × ((recovered_topic topic action evidence work).current_agent_turn ≡ none)
  unfolding recovered_topic regrounded reactivated
  recovered_shape topic WorkRecoveryAction.retry evidence work = (refl, refl, refl)
  recovered_shape topic WorkRecoveryAction.reground evidence work = (refl, refl, refl)

  no_active_topic_dead :
      (work : CurrentWorkState)
      → state.phase ≡ ConversationPhase.recoverable_error
      → state.session_work ≡ some work
      → state.active_topic ≡ none
  unfolding valid_phase holds_one_work active_work has_open_turn valid_topic_state valid_lifecycle
  no_active_topic_dead work w s = ground (arith, c.phase, c.active)

  pub session_recovered-Carried :
      (old new : CurrentWorkState) (trigger : TriggerBinding)
      → state.phase ≡ ConversationPhase.recoverable_error
      → state.session_work ≡ some old
      → retry_trigger_matches old.trigger trigger ≡ true
      → Queued state.session_id event trigger 1 none new
      → Carried (session_replaced state event c new ConversationPhase.waiting_host) event.sequence
  unfolding advance valid_session_lifecycle valid_new valid_ended valid_phase valid_selection
      valid_clarification_place valid_topic_ids all_topic_ids holds_one_work is_waiting_status
      is_dead_status active_work has_open_turn valid_session_work valid_session_kind valid_trigger
      retry_trigger_matches
  session_recovered-Carried old new trigger w s m q =
      let a = no_active_topic_dead old w s in ground (arith, c, q)
