-- ===== src/Laws/Valid/Run.antt =====
-- The changes of a Topic Run leave it valid.
use mathlib.Core.Option
use x_sync.Prelude.{
  List, String, String-eq, [], all, arith, is_distinct, is_subset, map, none, refl, some, true,
  when, ℕ, ◌∷◌, ◌≡◌,
}
use x_sync.Domain.{
  CommittedDialogueEvent, CurrentWorkState, EvidenceCheck, GateAssessment, GateRequirement, Lens,
  TopicContract, TopicLifecycle, TopicRunState, TopicSummary, TriggerBinding, TriggerKind,
}
use x_sync.Identity.{Sha256}
use x_sync.Laws.Valid.Work.{Queued}
use x_sync.Reduce.Pause.{completed_run, paused_run, paused_work}
use x_sync.Reduce.Topic.{new_topic, unexplored}
use x_sync.Validate.Model.{
  covers_gates, entry_ids, valid_gate_assessment, valid_gate_assessment_shape, valid_model_entry,
  valid_topic_summary,
}
use x_sync.Validate.Shapes.{valid_contract, valid_evidence, valid_trigger}
use x_sync.Validate.State.{is_waiting_status}
use x_sync.Validate.Topic.{
  topic_evidence, valid_current_turn, valid_learner_turns, valid_lifecycle, valid_topic_state,
  valid_topic_work, valid_work_status,
}
use x_sync.Validate.Work.{valid_current_work, valid_status}

map-unexplored :
    (gates : List GateRequirement)
    → map (λ (item : GateAssessment). item.gate_id) (map unexplored gates)
      ≡ map (λ (item : GateRequirement). item.gate_id) gates
unfolding unexplored
map-unexplored [] = refl
map-unexplored (x ∷ xs) = cc (map-unexplored xs)

unexplored-valid :
    (contract : TopicContract) (turns : List String) (gates : List GateRequirement)
    → all (λ item. valid_gate_assessment contract item turns) (map unexplored gates) ≡ true
unfolding all unexplored valid_gate_assessment valid_gate_assessment_shape is_subset
unexplored-valid contract turns [] = refl
unexplored-valid contract turns (x ∷ xs) = ground (arith, unexplored-valid contract turns xs)

-- The parts of a valid Run.
pub record RunParts ⦃h : Sha256⦄ (topic : TopicRunState) (lifecycle : TopicLifecycle)
    (session_id : String) (m : ℕ) : Type 0 where
  pub lifecycle_eq : topic.lifecycle ≡ lifecycle
  pub contract : valid_contract topic.contract ≡ true
  pub run_id : topic.topic_run_id ≡ topic.contract.topic_run_id
  pub evidence : valid_evidence (topic_evidence topic) ≡ true
  pub work : when true (λ work. valid_current_work work session_id m) topic.work ≡ true
  pub covers : covers_gates topic.gates ≡ true
  pub gates :
      all (λ item. valid_gate_assessment topic.contract item topic.learner_turn_ids) topic.gates
      ≡ true
  pub distinct : is_distinct (entry_ids topic.learner_model) ≡ true
  pub entries :
      all (λ item. valid_model_entry topic.contract item topic.learner_turn_ids) topic.learner_model
      ≡ true
  pub turns : valid_learner_turns topic ≡ true
  pub life : valid_lifecycle topic lifecycle ≡ true
  pub turn : when true (valid_current_turn topic) topic.current_agent_turn ≡ true
  pub topic_work : when true (valid_topic_work topic lifecycle) topic.work ≡ true

module _ ⦃h : Sha256⦄ (topic : TopicRunState) (lifecycle : TopicLifecycle) (session_id : String)
    (m : ℕ) where
  pub valid-RunParts :
      valid_topic_state topic lifecycle session_id m ≡ true → RunParts topic lifecycle session_id m
  unfolding valid_topic_state
  valid-RunParts v = ground arith

  pub RunParts-valid :
      RunParts topic lifecycle session_id m → valid_topic_state topic lifecycle session_id m ≡ true
  unfolding valid_topic_state
  RunParts-valid r = ground arith

module _ ⦃h : Sha256⦄ (session_id : String) (event : CommittedDialogueEvent) where
  -- The Run of a valid contract, with its first work item.
  pub new_topic-valid :
      (contract : TopicContract) (evidence : EvidenceCheck) (trigger : TriggerBinding)
      (kind : TriggerKind) (work : CurrentWorkState)
      → valid_contract contract ≡ true
      → valid_evidence evidence ≡ true
      → valid_trigger trigger kind (some contract.contract_digest) evidence.evidence_digest ≡ true
      → Queued session_id event trigger 1 none work
      → valid_topic_state
          (new_topic contract evidence work)
          TopicLifecycle.active
          session_id
          event.sequence
        ≡ true
  unfolding valid_topic_state new_topic topic_evidence covers_gates valid_contract
      valid_learner_turns valid_lifecycle valid_topic_work valid_work_status valid_trigger all
      is_distinct
  new_topic-valid contract evidence trigger kind work vc ve vt w =
      ground (arith, map-unexplored contract.gates, unexplored-valid contract [] contract.gates)

  summary_none :
      (topic : TopicRunState) (work : CurrentWorkState)
      → valid_lifecycle topic TopicLifecycle.active ≡ true
      → valid_lifecycle
          (record topic { current_agent_turn = none; work = some work })
          TopicLifecycle.active
        ≡ true
  unfolding valid_lifecycle
  summary_none topic work v = ground arith

  queued_work_lem :
      (topic : TopicRunState) (trigger : TriggerBinding) (kind : TriggerKind)
      (work : CurrentWorkState)
      → valid_trigger trigger kind (some topic.contract.contract_digest) topic.evidence_digest
        ≡ true
      → Queued session_id event trigger 1 none work
      → valid_topic_work topic TopicLifecycle.active work ≡ true
  unfolding valid_topic_work valid_work_status valid_trigger
  queued_work_lem topic trigger kind work vt w = ground arith

  paused_work-current :
      (topic : TopicRunState)
      → when true (λ work. valid_current_work work session_id event.sequence) topic.work ≡ true
      → when true (valid_topic_work topic TopicLifecycle.active) topic.work ≡ true
      → when true
          (λ work. valid_current_work work session_id event.sequence)
          (Option.map paused_work topic.work)
        ≡ true
  unfolding paused_work valid_current_work valid_status is_waiting_status
  paused_work-current topic v vt = ground arith

  paused_work-topic :
      (topic : TopicRunState)
      → when true (valid_topic_work topic TopicLifecycle.active) topic.work ≡ true
      → when true
          (valid_topic_work (paused_run topic) TopicLifecycle.paused)
          (Option.map paused_work topic.work)
        ≡ true
  unfolding paused_run paused_work valid_topic_work valid_work_status is_waiting_status
  paused_work-topic topic vt = ground arith

  paused_run-life :
      (topic : TopicRunState)
      → valid_lifecycle topic TopicLifecycle.active ≡ true
      → valid_lifecycle (paused_run topic) TopicLifecycle.paused ≡ true
  unfolding valid_lifecycle paused_run
  paused_run-life topic v = ground arith

  -- A Run that waits for the host again, with a fresh work item for its own contract and evidence.
  abbrev pub rework : TopicRunState → CurrentWorkState → TopicRunState
  rework topic work = record topic { current_agent_turn = none; work = some work }

  pub rework-valid :
      (topic : TopicRunState) (trigger : TriggerBinding) (kind : TriggerKind)
      (work : CurrentWorkState)
      → valid_topic_state topic TopicLifecycle.active session_id event.sequence ≡ true
      → valid_trigger trigger kind (some topic.contract.contract_digest) topic.evidence_digest
        ≡ true
      → Queued session_id event trigger 1 none work
      → valid_topic_state (rework topic work) TopicLifecycle.active session_id event.sequence ≡ true
  unfolding topic_evidence valid_learner_turns valid_lifecycle valid_topic_work valid_work_status
      valid_trigger
  rework-valid topic trigger kind work v vt w =
      let p = valid-RunParts topic TopicLifecycle.active session_id event.sequence v in
      RunParts-valid (rework topic work) TopicLifecycle.active session_id event.sequence (record {
        lifecycle_eq = p.lifecycle_eq;
        contract = p.contract;
        run_id = p.run_id;
        evidence = p.evidence;
        work = w.valid;
        covers = p.covers;
        gates = p.gates;
        distinct = p.distinct;
        entries = p.entries;
        turns = p.turns;
        life = summary_none topic work p.life;
        turn = refl;
        topic_work = queued_work_lem topic trigger kind work vt w;
      })

  -- A lens has no part in the validity of a Run.
  pub lens-valid :
      (topic : TopicRunState) (current : Lens)
      → valid_topic_state topic TopicLifecycle.active session_id event.sequence ≡ true
      → valid_topic_state
          (record topic { current_lens = some current })
          TopicLifecycle.active
          session_id
          event.sequence
        ≡ true
  unfolding valid_topic_state topic_evidence valid_learner_turns valid_lifecycle valid_topic_work
      valid_current_turn
  lens-valid topic current v = ground arith

  pub paused_run-valid :
      (topic : TopicRunState)
      → valid_topic_state topic TopicLifecycle.active session_id event.sequence ≡ true
      → valid_topic_state (paused_run topic) TopicLifecycle.paused session_id event.sequence ≡ true
  unfolding paused_run topic_evidence valid_learner_turns valid_lifecycle valid_current_turn
  paused_run-valid topic v =
      let p = valid-RunParts topic TopicLifecycle.active session_id event.sequence v in
      RunParts-valid (paused_run topic) TopicLifecycle.paused session_id event.sequence (record {
        lifecycle_eq = refl;
        contract = p.contract;
        run_id = p.run_id;
        evidence = p.evidence;
        work = paused_work-current topic p.work p.topic_work;
        covers = p.covers;
        gates = p.gates;
        distinct = p.distinct;
        entries = p.entries;
        turns = p.turns;
        life = paused_run-life topic p.life;
        turn = p.turn;
        topic_work = paused_work-topic topic p.topic_work;
      })

  pub completed_run-valid :
      (topic : TopicRunState) (summary : TopicSummary)
      → valid_topic_state topic TopicLifecycle.active session_id event.sequence ≡ true
      → valid_topic_summary summary ≡ true
      → valid_topic_state
          (completed_run topic summary)
          TopicLifecycle.completed
          session_id
          event.sequence
        ≡ true
  unfolding valid_topic_state completed_run topic_evidence valid_learner_turns valid_lifecycle
  completed_run-valid topic summary v vs = ground arith
