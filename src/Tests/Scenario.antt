-- ===== src/Tests/Scenario.antt =====
-- A whole Session: a topic is chosen, explained back, completed and exported; a work item fails.
use x_sync.Prelude.{List, Option, Result, String, [], err, none, ok, refl, some, true, ◌∷◌, ◌≡◌}
use x_sync.Domain.{
  AgentTurnResult, DialogueState, GateAssessment, GateId, GateStatus, InsightKind,
  InsightProvenance, InsightStatus, LearnerModelEntry, Lens, QuestionIntent, TopicContract,
  TopicRunState, TriggerBinding, TriggerKind, commit_agent_turn, complete_export, complete_topic,
  present_candidates, request_export, select_topic, start_session, start_topic, submit_learner_turn,
}
use x_sync.Tests.Data.{candidates_trigger, commit_decision, digest, execute, fresh, trigger}
use x_sync.Tests.Open.{model}

-- The state of a run, where it succeeds.
abbrev pub reached : Result DialogueState → DialogueState
reached (ok state) = state
reached (err code) = fresh

-- The active Run of a state, where it has one.
abbrev pub run_of : Option TopicRunState → (TopicRunState → DialogueState) → DialogueState
run_of none rest = fresh
run_of (some topic) rest = rest topic

abbrev pub selection_trigger : TriggerBinding
selection_trigger = trigger TriggerKind.topic_selection "w-2" none none

abbrev pub initial_trigger : TriggerBinding
initial_trigger = trigger TriggerKind.initial_turn "w-3" none (some digest)

abbrev pub reply_trigger : String → TriggerBinding
reply_trigger turn = trigger TriggerKind.learner_reply "w-4" (some turn) (some digest)

abbrev pub contract : TopicContract
contract = record {
  contract_id = "contract-1";
  contract_version = 1;
  topic_run_id = "run-1";
  title = "Retries";
  guiding_question = "Why retry?";
  objective = "Explain the retry";
  task_scope = record {
    task_id = "task-1";
    summary = "Retry";
    included_paths = [];
    excluded_paths = [];
  };
  starting_lens = Lens.mixed;
  bridge_required = true;
  evidence_refs = "ref-1" ∷ [];
  gates =
      record { gate_id = GateId.mechanism; required = true }
      ∷ record { gate_id = GateId.boundary; required = true }
      ∷ record { gate_id = GateId.repository_application; required = true }
      ∷ [];
  supersedes_contract_id = none;
  contract_digest = digest;
}

abbrev pub assessed : GateId → GateStatus → List String → List String → GateAssessment
assessed gate status turns refs = record {
  gate_id = gate;
  status = status;
  source_turn_ids = turns;
  evidence_refs = refs;
}

abbrev pub turn :
    String → GateStatus → List String → List String → List LearnerModelEntry → AgentTurnResult
turn question status turns refs delta = record {
  heard = "You said so";
  one_step_further = "And then";
  question_id = question;
  question = "What if it fails?";
  question_intent = QuestionIntent.causal_trace;
  learner_model_delta = delta;
  gate_assessments =
      assessed GateId.mechanism status turns refs
      ∷ assessed GateId.boundary status turns refs
      ∷ assessed GateId.repository_application status turns refs
      ∷ [];
  evidence_refs = "ref-1" ∷ [];
}

abbrev pub entry : LearnerModelEntry
entry = record {
  entry_id = "entry-1";
  kind = InsightKind.business_technical_mapping;
  status = InsightStatus.confirmed;
  provenance = InsightProvenance.learner_explicit;
  statement = "A retry keeps an order";
  source_turn_ids = "turn-1" ∷ [];
  evidence_refs = "ref-1" ∷ [];
}

abbrev pub first_turn : AgentTurnResult
first_turn = turn "q-1" GateStatus.emerging [] [] []

abbrev pub second_turn : AgentTurnResult
second_turn = turn "q-2" GateStatus.supported ("turn-1" ∷ []) ("ref-1" ∷ []) (entry ∷ [])

abbrev pub s1 : DialogueState
s1 =
    reached
      (execute fresh (start_session (record { command_id = "cmd-1" })) (some candidates_trigger))

abbrev pub s2 : DialogueState
s2 = reached (
    execute s1 (present_candidates (record { command_id = "cmd-2"; candidates = "Retries" ∷ [] }))
      (some candidates_trigger))

abbrev pub s3 : DialogueState
s3 = reached (
    execute s2 (select_topic (record { command_id = "cmd-3"; candidate = "Retries" }))
      (some selection_trigger))

abbrev pub s4 : DialogueState
s4 = reached (
    execute s3
      (start_topic
        (record { command_id = "cmd-4"; contract = contract; selected_candidate = some "Retries" }))
      (some initial_trigger))

abbrev pub s5 : DialogueState
s5 = reached (
    execute s4 (commit_agent_turn (record { command_id = "cmd-5"; result = first_turn }))
      (some initial_trigger))

abbrev pub s6 : DialogueState
s6 = reached (
    execute s5
      (submit_learner_turn (record {
        command_id = "cmd-6";
        question_id = "q-1";
        learner_turn_id = "turn-1";
        text = "It is sent again";
      }))
      (some (reply_trigger "turn-1")))

abbrev pub s7 : DialogueState
s7 = reached (
    execute s6 (commit_agent_turn (record { command_id = "cmd-7"; result = second_turn }))
      (some (reply_trigger "turn-1")))

abbrev pub s8 : DialogueState
s8 = reached (
    execute s7
      (submit_learner_turn (record {
        command_id = "cmd-8";
        question_id = "q-2";
        learner_turn_id = "turn-2";
        text = "Then it is dropped";
      }))
      (some (reply_trigger "turn-2")))

abbrev pub s9 : DialogueState
s9 = reached (
    execute s8
      (complete_topic (record {
        command_id = "cmd-9";
        summary = record {
          takeaway = "Retries end";
          confirmed_entry_ids = "entry-1" ∷ [];
          open_questions = [];
          next_suggestion = "Look at the queue";
        };
      }))
      (some (reply_trigger "turn-2")))

abbrev pub s10 : DialogueState
s10 = reached (
    execute s9
      (request_export (record {
        command_id = "cmd-10";
        export_id = "exp-1";
        intent_id = "intent-1";
        requested_at = "now";
        payload_digest = digest;
      }))
      none)

abbrev pub s11 : DialogueState
s11 = reached (
    execute s10
      (complete_export (record {
        command_id = "cmd-11";
        export_id = "exp-1";
        intent_id = "intent-1";
        completed_at = "later";
        json_path = "a.json";
        json_digest = digest;
        markdown_path = "a.md";
        markdown_digest = digest;
        freshness_overlay_digest = digest;
      }))
      none)

scenario : (s11.sequence ≡ 11) × (s9.conversation_version ≡ 9) × (s11.conversation_version ≡ 9)
unfolding model execute commit_decision
scenario = (refl, refl, refl)
