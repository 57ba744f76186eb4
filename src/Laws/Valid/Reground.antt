-- ===== src/Laws/Valid/Reground.antt =====
-- A Run that becomes active again, on the same evidence or on new evidence, is valid.
use x_sync.Prelude.{
  List, String, String-eq, [], all-map, ap, arith, is_distinct, map, none, refl, some, true, ◌∙◌,
  ◌∷◌, ◌≡◌, ◌≢◌,
}
use x_sync.Domain.{
  CommittedDialogueEvent, CurrentWorkState, EvidenceCheck, GateAssessment, LearnerModelEntry,
  TopicContract, TopicLifecycle, TopicRunState, TriggerBinding, TriggerKind,
}
use x_sync.Identity.{Sha256}
use x_sync.Laws.Valid.Run.{RunParts-valid, valid-RunParts}
use x_sync.Laws.Valid.Work.{Queued}
use x_sync.Reduce.Resume.{reactivated, regrounded, stale_entry, stale_gate}
use x_sync.Validate.Model.{
  covers_gates, entry_ids, valid_gate_assessment, valid_gate_assessment_shape, valid_model_entry,
  valid_model_entry_shape,
}
use x_sync.Validate.Shapes.{valid_evidence, valid_trigger}
use x_sync.Validate.Topic.{
  topic_evidence, valid_learner_turns, valid_lifecycle, valid_topic_state, valid_topic_work,
  valid_work_status,
}

stale_gate-id : (item : GateAssessment) → (stale_gate item).gate_id ≡ item.gate_id
unfolding stale_gate
stale_gate-id item = ground arith

gate_ids-stale :
    (gates : List GateAssessment)
    → map (λ (item : GateAssessment). item.gate_id) (map stale_gate gates)
      ≡ map (λ (item : GateAssessment). item.gate_id) gates
gate_ids-stale [] = refl
gate_ids-stale (x ∷ xs) = cc (stale_gate-id x, gate_ids-stale xs)

covers_gates-stale :
    (gates : List GateAssessment) → covers_gates (map stale_gate gates) ≡ covers_gates gates
unfolding covers_gates
covers_gates-stale gates = rw (gate_ids-stale gates)

stale_gate-valid :
    (contract : TopicContract) (turns : List String) (item : GateAssessment)
    → valid_gate_assessment contract item turns ≡ true
    → valid_gate_assessment contract (stale_gate item) turns ≡ true
unfolding stale_gate valid_gate_assessment valid_gate_assessment_shape
stale_gate-valid contract turns item v = ground arith

stale_entry-id : (item : LearnerModelEntry) → (stale_entry item).entry_id ≡ item.entry_id
unfolding stale_entry
stale_entry-id item = ground arith

entry_ids-stale :
    (entries : List LearnerModelEntry) → entry_ids (map stale_entry entries) ≡ entry_ids entries
entry_ids-stale [] = refl
entry_ids-stale (x ∷ xs) = cc (stale_entry-id x, entry_ids-stale xs)

stale_entry-valid :
    (contract : TopicContract) (turns : List String) (item : LearnerModelEntry)
    → valid_model_entry contract item turns ≡ true
    → valid_model_entry contract (stale_entry item) turns ≡ true
unfolding stale_entry valid_model_entry valid_model_entry_shape
stale_entry-valid contract turns item v = ground arith

module _ ⦃h : Sha256⦄ (session_id : String) (event : CommittedDialogueEvent) where
  -- The Run with fresh evidence and a work item for it.
  abbrev pub refreshed : TopicRunState → EvidenceCheck → CurrentWorkState → TopicRunState
  refreshed topic evidence work =
      let active = reactivated topic evidence in
      record active { current_agent_turn = none; work = some work }

  refreshed-work :
      (topic : TopicRunState) (evidence : EvidenceCheck) (trigger : TriggerBinding)
      (kind : TriggerKind) (work : CurrentWorkState)
      → valid_trigger trigger kind (some topic.contract.contract_digest) evidence.evidence_digest
        ≡ true
      → Queued session_id event trigger 1 none work
      → valid_topic_work (refreshed topic evidence work) TopicLifecycle.active work ≡ true
  unfolding reactivated valid_topic_work valid_work_status valid_trigger
  refreshed-work topic evidence trigger kind work vt w = ground arith

  refreshed-life :
      (topic : TopicRunState) (lifecycle : TopicLifecycle) (evidence : EvidenceCheck)
      (work : CurrentWorkState)
      → lifecycle ≢ TopicLifecycle.completed
      → valid_lifecycle topic lifecycle ≡ true
      → valid_lifecycle (refreshed topic evidence work) TopicLifecycle.active ≡ true
  unfolding reactivated valid_lifecycle
  refreshed-life topic lifecycle evidence work n v = ground arith

  pub refreshed-valid :
      (topic : TopicRunState) (lifecycle : TopicLifecycle) (evidence : EvidenceCheck)
      (trigger : TriggerBinding) (kind : TriggerKind) (work : CurrentWorkState)
      → lifecycle ≢ TopicLifecycle.completed
      → valid_topic_state topic lifecycle session_id event.sequence ≡ true
      → valid_evidence evidence ≡ true
      → valid_trigger trigger kind (some topic.contract.contract_digest) evidence.evidence_digest
        ≡ true
      → Queued session_id event trigger 1 none work
      → valid_topic_state
          (refreshed topic evidence work)
          TopicLifecycle.active
          session_id
          event.sequence
        ≡ true
  unfolding reactivated topic_evidence valid_learner_turns
  refreshed-valid topic lifecycle evidence trigger kind work n v ve vt w =
      let p = valid-RunParts topic lifecycle session_id event.sequence v in
      RunParts-valid (refreshed topic evidence work) TopicLifecycle.active session_id event.sequence
        (record {
          lifecycle_eq = refl;
          contract = p.contract;
          run_id = p.run_id;
          evidence = ve;
          work = w.valid;
          covers = p.covers;
          gates = p.gates;
          distinct = p.distinct;
          entries = p.entries;
          turns = p.turns;
          life = refreshed-life topic lifecycle evidence work n p.life;
          turn = refl;
          topic_work = refreshed-work topic evidence trigger kind work vt w;
        })

  regrounded-life :
      (topic : TopicRunState) (lifecycle : TopicLifecycle) (evidence : EvidenceCheck)
      (work : CurrentWorkState)
      → lifecycle ≢ TopicLifecycle.completed
      → valid_lifecycle topic lifecycle ≡ true
      → valid_lifecycle (regrounded (reactivated topic evidence) work) TopicLifecycle.active ≡ true
  unfolding reactivated regrounded valid_lifecycle
  regrounded-life topic lifecycle evidence work n v = ground arith

  regrounded-work :
      (topic : TopicRunState) (evidence : EvidenceCheck) (trigger : TriggerBinding)
      (kind : TriggerKind) (work : CurrentWorkState)
      → valid_trigger trigger kind (some topic.contract.contract_digest) evidence.evidence_digest
        ≡ true
      → Queued session_id event trigger 1 none work
      → valid_topic_work (regrounded (reactivated topic evidence) work) TopicLifecycle.active work
        ≡ true
  unfolding reactivated regrounded valid_topic_work valid_work_status valid_trigger
  regrounded-work topic evidence trigger kind work vt w = ground arith

  pub regrounded-valid :
      (topic : TopicRunState) (lifecycle : TopicLifecycle) (evidence : EvidenceCheck)
      (trigger : TriggerBinding) (kind : TriggerKind) (work : CurrentWorkState)
      → lifecycle ≢ TopicLifecycle.completed
      → valid_topic_state topic lifecycle session_id event.sequence ≡ true
      → valid_evidence evidence ≡ true
      → valid_trigger trigger kind (some topic.contract.contract_digest) evidence.evidence_digest
        ≡ true
      → Queued session_id event trigger 1 none work
      → valid_topic_state
          (regrounded (reactivated topic evidence) work)
          TopicLifecycle.active
          session_id
          event.sequence
        ≡ true
  unfolding reactivated regrounded topic_evidence valid_learner_turns
  regrounded-valid topic lifecycle evidence trigger kind work n v ve vt w =
      let p = valid-RunParts topic lifecycle session_id event.sequence v in
      RunParts-valid (regrounded (reactivated topic evidence) work) TopicLifecycle.active session_id
        event.sequence
        (record {
          lifecycle_eq = refl;
          contract = p.contract;
          run_id = p.run_id;
          evidence = ve;
          work = w.valid;
          covers = covers_gates-stale topic.gates ∙ p.covers;
          gates =
              all-map _ _ stale_gate topic.gates
                (stale_gate-valid topic.contract topic.learner_turn_ids) p.gates;
          distinct = ap is_distinct (entry_ids-stale topic.learner_model) ∙ p.distinct;
          entries =
              all-map _ _ stale_entry topic.learner_model
                (stale_entry-valid topic.contract topic.learner_turn_ids) p.entries;
          turns = p.turns;
          life = regrounded-life topic lifecycle evidence work n p.life;
          turn = refl;
          topic_work = regrounded-work topic evidence trigger kind work vt w;
        })
