-- ===== src/Laws/Valid/Turn.antt =====
-- Agent turns, learner turns and a resumed question leave a valid Run.
use x_sync.Prelude.{
  Bool, In, List, Option-cases, String, String-eq, [], all, all-append, all_mono, ap, arith, count,
  count-append, count-distinct, count-has, distinct-count, false, has, has-append, inl, inr,
  is_distinct, is_empty, none, refl, some, subset_mono, true, ◌++◌, ◌∷◌, ◌≡◌, ◌≤◌,
}
use x_sync.Domain.{
  AgentTurnResult, CommittedDialogueEvent, CurrentWorkState, EvidenceCheck, GateAssessment,
  LearnerModelEntry, LearnerModelEntry-eq, LearnerTurnSubmitted, TopicContract, TopicLifecycle,
  TopicRunState, TriggerBinding, TriggerKind,
}
use x_sync.Decide.Guards.{same_evidence}
use x_sync.Identity.{Sha256}
use x_sync.Laws.Valid.Model.{
  all-apply_model_updates, has-apply_model_updates, is_distinct-apply_model_updates,
}
use x_sync.Laws.Valid.Run.{RunParts-valid, valid-RunParts}
use x_sync.Laws.Valid.Work.{Queued}
use x_sync.Reduce.Resume.{reactivated}
use x_sync.Reduce.Topic.{with_turn}
use x_sync.Reduce.Turn.{with_learner_turn}
use x_sync.Text.{valid_text}
use x_sync.Validate.Model.{
  apply_model_updates, valid_agent_turn, valid_gate_assessment, valid_model_entry,
}
use x_sync.Validate.Shapes.{valid_evidence, valid_trigger}
use x_sync.Validate.Topic.{
  last_id, topic_evidence, valid_current_turn, valid_learner_turns, valid_lifecycle,
  valid_topic_state, valid_topic_work, valid_work_status,
}

-- The evidence of an event that agrees with the Run's in every field is the Run's.
pub same_evidence-topic_evidence :
    (evidence : EvidenceCheck) (topic : TopicRunState)
    → same_evidence evidence topic ≡ true
    → evidence ≡ topic_evidence topic
unfolding same_evidence topic_evidence
same_evidence-topic_evidence evidence topic s = ground arith

last_id-append : (xs : List String) (x : String) → last_id (xs ++ x ∷ []) ≡ some x
unfolding last_id
last_id-append [] x = refl
last_id-append (y ∷ []) x = refl
last_id-append (y ∷ z ∷ zs) x = last_id-append (z ∷ zs) x

pub is_distinct-append_one :
    (x : String) (xs : List String)
    → is_distinct xs ≡ true
    → has x xs ≡ false
    → is_distinct (xs ++ x ∷ []) ≡ true
is_distinct-append_one x xs d n = count-distinct (xs ++ x ∷ []) bound
  where
    bound : (z : String) → count z (xs ++ x ∷ []) ≤ 1
    bound z =
        rw (count-append z xs (x ∷ [])) (ground (arith, distinct-count z xs d, count-has x xs n))

has-grown :
    (x : String) (xs : List String) (z : String) → has z xs ≡ true → has z (xs ++ x ∷ []) ≡ true
has-grown x xs z h = rw (has-append z xs (x ∷ []), h)

all-In :
    {A : Type 0} (p q : A → Bool) (xs ys : List A)
    → all p xs ≡ true
    → ((x : A) → In x xs → q x ≡ true)
    → all q xs ≡ true
unfolding all
all-In p q [] ys h k = refl
all-In p q (x ∷ xs) ys h k =
    ground (arith, k x (inl refl), all-In p q xs ys (ground arith) (λ z i. k z (inr i)))

gate-grown :
    (contract : TopicContract) (x : String) (xs : List String) (item : GateAssessment)
    → valid_gate_assessment contract item xs ≡ true
    → valid_gate_assessment contract item (xs ++ x ∷ []) ≡ true
unfolding valid_gate_assessment
gate-grown contract x xs item v =
    ground (arith, subset_mono item.source_turn_ids xs (xs ++ x ∷ []) (has-grown x xs))

entry-grown :
    (contract : TopicContract) (x : String) (xs : List String) (item : LearnerModelEntry)
    → valid_model_entry contract item xs ≡ true
    → valid_model_entry contract item (xs ++ x ∷ []) ≡ true
unfolding valid_model_entry
entry-grown contract x xs item v =
    ground (arith, subset_mono item.source_turn_ids xs (xs ++ x ∷ []) (has-grown x xs))

module _ ⦃h : Sha256⦄ (session_id : String) (event : CommittedDialogueEvent) where
  turn-life :
      (topic : TopicRunState) (result : AgentTurnResult)
      → valid_lifecycle topic TopicLifecycle.active ≡ true
      → valid_lifecycle (with_turn topic result) TopicLifecycle.active ≡ true
  unfolding with_turn valid_lifecycle
  turn-life topic result v = ground arith

  -- The agent turn that a Run commits is valid in the Run that has it.
  turn-current :
      (topic : TopicRunState) (result : AgentTurnResult)
      → valid_agent_turn topic.contract result (topic_evidence topic) topic.learner_turn_ids ≡ true
      → valid_current_turn (with_turn topic result) result ≡ true
  unfolding with_turn valid_current_turn topic_evidence valid_agent_turn
  turn-current topic result v = ground (
    arith,
    all-In (λ entry. valid_model_entry topic.contract entry topic.learner_turn_ids)
        (λ entry. has entry (apply_model_updates topic.learner_model result.learner_model_delta))
        result.learner_model_delta [] (ground arith)
        (λ update.
          has-apply_model_updates topic.learner_model result.learner_model_delta update
            (ground arith)),
  )

  pub with_turn-valid :
      (topic : TopicRunState) (result : AgentTurnResult)
      → valid_topic_state topic TopicLifecycle.active session_id event.sequence ≡ true
      → valid_agent_turn topic.contract result (topic_evidence topic) topic.learner_turn_ids ≡ true
      → valid_topic_state (with_turn topic result) TopicLifecycle.active session_id event.sequence
        ≡ true
  unfolding with_turn topic_evidence valid_learner_turns valid_agent_turn
  with_turn-valid topic result v vr =
      let p = valid-RunParts topic TopicLifecycle.active session_id event.sequence v in
      RunParts-valid (with_turn topic result) TopicLifecycle.active session_id event.sequence
        (record {
          lifecycle_eq = p.lifecycle_eq;
          contract = p.contract;
          run_id = p.run_id;
          evidence = p.evidence;
          work = refl;
          covers = ground arith;
          gates = ground arith;
          distinct =
              is_distinct-apply_model_updates topic.learner_model result.learner_model_delta
                p.distinct (ground arith);
          entries =
              all-apply_model_updates _ topic.learner_model result.learner_model_delta p.entries
                (ground arith);
          turns = p.turns;
          life = turn-life topic result p.life;
          turn = turn-current topic result vr;
          topic_work = refl;
        })

  learner-life :
      (topic : TopicRunState) (payload : LearnerTurnSubmitted) (work : CurrentWorkState)
      → valid_lifecycle topic TopicLifecycle.active ≡ true
      → valid_lifecycle (with_learner_turn topic payload work) TopicLifecycle.active ≡ true
  unfolding with_learner_turn valid_lifecycle
  learner-life topic payload work v = ground arith

  learner-work :
      (topic : TopicRunState) (payload : LearnerTurnSubmitted) (trigger : TriggerBinding)
      (kind : TriggerKind) (work : CurrentWorkState)
      → valid_trigger trigger kind (some topic.contract.contract_digest) topic.evidence_digest
        ≡ true
      → Queued session_id event trigger 1 none work
      → valid_topic_work (with_learner_turn topic payload work) TopicLifecycle.active work ≡ true
  unfolding with_learner_turn valid_topic_work valid_work_status valid_trigger
  learner-work topic payload trigger kind work vt w = ground arith

  append-is_empty : (xs : List String) (x : String) → is_empty (xs ++ x ∷ []) ≡ false
  append-is_empty [] x = refl
  append-is_empty (y ∷ ys) x = refl

  learner-turns :
      (topic : TopicRunState) (payload : LearnerTurnSubmitted) (work : CurrentWorkState)
      → valid_learner_turns topic ≡ true
      → valid_text payload.learner_turn_id ≡ true
      → valid_text payload.text ≡ true
      → has payload.learner_turn_id topic.learner_turn_ids ≡ false
      → valid_learner_turns (with_learner_turn topic payload work) ≡ true
  unfolding with_learner_turn valid_learner_turns all
  learner-turns topic payload work v vi vt n = ground (
    arith,
    append-is_empty topic.learner_turn_ids payload.learner_turn_id,
    last_id-append topic.learner_turn_ids payload.learner_turn_id,
    all-append valid_text topic.learner_turn_ids (payload.learner_turn_id ∷ []),
    is_distinct-append_one payload.learner_turn_id topic.learner_turn_ids (ground arith) n,
  )

  pub with_learner_turn-valid :
      (topic : TopicRunState) (payload : LearnerTurnSubmitted) (kind : TriggerKind)
      (work : CurrentWorkState)
      → valid_topic_state topic TopicLifecycle.active session_id event.sequence ≡ true
      → valid_text payload.learner_turn_id ≡ true
      → valid_text payload.text ≡ true
      → has payload.learner_turn_id topic.learner_turn_ids ≡ false
      → valid_trigger payload.next_trigger kind
          (some topic.contract.contract_digest)
          topic.evidence_digest
        ≡ true
      → Queued session_id event payload.next_trigger 1 none work
      → valid_topic_state
          (with_learner_turn topic payload work)
          TopicLifecycle.active
          session_id
          event.sequence
        ≡ true
  unfolding with_learner_turn topic_evidence
  with_learner_turn-valid topic payload kind work v vi vt n tr w =
      let p = valid-RunParts topic TopicLifecycle.active session_id event.sequence v in
      RunParts-valid (with_learner_turn topic payload work) TopicLifecycle.active session_id
        event.sequence
        (record {
          lifecycle_eq = p.lifecycle_eq;
          contract = p.contract;
          run_id = p.run_id;
          evidence = p.evidence;
          work = w.valid;
          covers = p.covers;
          gates =
              all_mono _ _ topic.gates
                (gate-grown topic.contract payload.learner_turn_id topic.learner_turn_ids) p.gates;
          distinct = p.distinct;
          entries =
              all_mono _ _ topic.learner_model
                (entry-grown topic.contract payload.learner_turn_id topic.learner_turn_ids)
                p.entries;
          turns = learner-turns topic payload work p.turns vi vt n;
          life = learner-life topic payload work p.life;
          turn = refl;
          topic_work = learner-work topic payload payload.next_trigger kind work tr w;
        })

  kept-life :
      (topic : TopicRunState) (evidence : EvidenceCheck)
      → valid_lifecycle topic TopicLifecycle.paused ≡ true
      → valid_lifecycle (reactivated topic evidence) TopicLifecycle.active ≡ true
  unfolding reactivated valid_lifecycle
  kept-life topic evidence v = ground arith

  kept-turn :
      (topic : TopicRunState) (evidence : EvidenceCheck) (turn : AgentTurnResult)
      → evidence ≡ topic_evidence topic
      → valid_current_turn topic turn ≡ true
      → valid_current_turn (reactivated topic evidence) turn ≡ true
  unfolding reactivated valid_current_turn topic_evidence
  kept-turn topic evidence turn e v =
      ground (arith, ap (λ x. valid_agent_turn topic.contract turn x topic.learner_turn_ids) e)

  -- A paused Run with an open question, resumed on the same evidence.
  pub kept-valid :
      (topic : TopicRunState) (evidence : EvidenceCheck)
      → valid_topic_state topic TopicLifecycle.paused session_id event.sequence ≡ true
      → valid_evidence evidence ≡ true
      → evidence ≡ topic_evidence topic
      → topic.work ≡ none
      → valid_topic_state
          (reactivated topic evidence)
          TopicLifecycle.active
          session_id
          event.sequence
        ≡ true
  unfolding reactivated topic_evidence valid_learner_turns
  kept-valid topic evidence v ve e none_work =
      let p = valid-RunParts topic TopicLifecycle.paused session_id event.sequence v in
      RunParts-valid (reactivated topic evidence) TopicLifecycle.active session_id event.sequence
        (record {
          lifecycle_eq = refl;
          contract = p.contract;
          run_id = p.run_id;
          evidence = ve;
          work = p.work;
          covers = p.covers;
          gates = p.gates;
          distinct = p.distinct;
          entries = p.entries;
          turns = p.turns;
          life = kept-life topic evidence p.life;
          turn = elim (Option-cases topic.current_agent_turn) [
            | inl missing ↦ ground arith
            | inr (turn, t) ↦
                ground (arith, kept-turn topic evidence turn e (ground (arith, p.turn)))
          ];
          topic_work = ground arith;
        })
