-- ===== src/Tests/Data.antt =====
-- Inputs for the tests: a Session from its start to a first agent turn.
use x_sync.Prelude.{Error, Option, Result, String, [], err, none, ok, refl, some, ◌≡◌}
use x_sync.Domain.{
  ConversationPhase, DecisionContext, DialogueCommand, DialogueState, EvidenceCheck, EvidenceHealth,
  SessionLifecycle, TriggerBinding, TriggerKind, start_session,
}
use x_sync.Decide.Table.{decide}
use x_sync.Decision.{Decision, accepted, rejected}
use x_sync.Identity.{Sha256}
use x_sync.Reduce.Step.{reduce_all}
use x_sync.Session.{committed_events, initial_dialogue_state}
use x_sync.Tests.Open.{model}

abbrev pub hex : String
hex = "0123456789abcdef0123456789abcdef0123456789abcdef0123456789abcdef"

-- Every text has this digest; no test depends on the digests of two texts being different.
instance abbrev pub fixed_sha256 : Sha256
fixed_sha256 = record { hexdigest = λ encoded. hex }

abbrev pub digest : String
digest = "sha256:0123456789abcdef0123456789abcdef0123456789abcdef0123456789abcdef"

abbrev pub evidence : EvidenceCheck
evidence = record {
  health = EvidenceHealth.current;
  evidence_digest = digest;
  exact_recheck_fingerprint = none;
}

abbrev pub trigger : TriggerKind → String → Option String → Option String → TriggerBinding
trigger kind work_id parent contract_digest = record {
  kind = kind;
  work_id = work_id;
  runtime_epoch = "epoch-1";
  parent_turn_id = parent;
  contract_digest = contract_digest;
  input_digest = digest;
  evidence_digest = digest;
}

abbrev pub context : Option TriggerBinding → DecisionContext
context trigger = record { registry_generation = 1; trigger = trigger; evidence = evidence }

abbrev pub fresh : DialogueState
fresh = record {
  session_id = "sess-1";
  registry_generation = 1;
  sequence = 0;
  conversation_version = 0;
  lifecycle = SessionLifecycle.new;
  phase = ConversationPhase.none_phase;
  candidates = [];
  session_work = none;
  active_topic = none;
  paused_topics = [];
  selected_candidate = none;
  topic_clarification = none;
  completed_topics = [];
  exports = [];
}

-- The commit of a decision: number the events and fold them into the state.
unfoldable pub commit_decision : DialogueState → Decision → Result DialogueState
commit_decision state (rejected code) = err Error.unknown_event
commit_decision state (accepted events) =
    reduce_all state
      (committed_events (λ index. "evt-1") 1 state.sequence state.conversation_version events)

unfoldable pub execute :
    DialogueState → DialogueCommand → Option TriggerBinding → Result DialogueState
execute state command trigger = commit_decision state (decide state command (context trigger))

abbrev pub candidates_trigger : TriggerBinding
candidates_trigger = trigger TriggerKind.topic_candidates "w-1" none none

initial_lem : initial_dialogue_state "sess-1" 1 ≡ ok fresh
unfolding model
initial_lem = refl

run1 : Result DialogueState
run1 = execute fresh (start_session (record { command_id = "cmd-1" })) (some candidates_trigger)
