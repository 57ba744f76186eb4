-- ===== src/Tests/Leases.antt =====
-- Inputs for the theorems on leases: a first claim of a work item and its renewal.
use x_sync.Prelude.{
  Bool-eq, List-eq, Option-eq, String-eq, [], all, false, none, ok, refl, some, true, ℕ, ℕ-eq, ◌+◌,
  ◌==◌, ◌∷◌, ◌≡◌,
}
use x_sync.Domain.{
  AgentTurnResult-eq, ConversationPhase-eq, CurrentWorkState-eq, EvidenceHealth-eq, ExportStatus-eq,
  GateAssessment-eq, GateId-eq, GateRequirement-eq, GateStatus-eq, InsightKind-eq,
  InsightProvenance-eq, InsightStatus-eq, LearnerModelEntry-eq, Lens-eq, PauseCause-eq,
  QuestionIntent-eq, SessionLifecycle-eq, TaskScope-eq, TopicClarification-eq, TopicContract-eq,
  TopicLifecycle-eq, TopicRunState-eq, TopicSummary-eq, TriggerBinding-eq, TriggerKind,
  TriggerKind-eq, WorkFailure-eq, WorkFailureCategory-eq, WorkRecoveryAction-eq, WorkStatus-eq,
}
use x_sync.Laws.Lease.Tenure.{is_tenured}
use x_sync.Lease.Clock.{Calls, LeaseHost}
use x_sync.Lease.Commit.{Committed, commit, committed_transaction}
use x_sync.Lease.Encode.{LeaseDigests}
use x_sync.Lease.History.{valid_history}
use x_sync.Lease.Model.{
  AuthoritativeWorkSnapshot, ClaimRequest, LeaseExhaustionProof-eq, LeaseOperation,
  LeaseOperation-eq, LeaseRecord, LeaseTransaction, PublishFence, RenewRequest,
  RuntimeAuthorityCheck, claim_request, renew_request,
}
use x_sync.Lease.Publish.{assert_publishable_for_work}
use x_sync.Lease.Requests.{valid_renew_request}
use x_sync.Lease.Store.{claim, owner_check, renew}
use x_sync.Lease.Terms.{acquired_lease}
use x_sync.Registry.Model.{
  ActivateTarget-eq, ActivationKind-eq, DialogueRegistrationStatus-eq, RegisteredDialogue-eq,
}
use x_sync.Tests.Data.{candidates_trigger, digest, fixed_sha256}
use x_sync.Tests.Open.{model}
use x_sync.Tests.Registry.{registry_one}
use x_sync.Tests.Snapshots.{started}
use x_sync.Work.{RunnableWork, WorkOrigin}

instance abbrev pub fixed_digests : LeaseDigests
fixed_digests = record {
  digest_of_request = λ operation request. digest;
  hash_of_transaction = λ transaction. digest;
  size_of_transaction = λ transaction. 1024;
  digest_of_history = λ history. digest;
}

-- A store whose clock ticks once a call and whose runtime accepts the checks of one owner.
abbrev pub host : LeaseHost
host = record {
  runtime_epoch = "epoch-1";
  clock = λ calls. some (10 + calls);
  runtime_authority_verifier = λ calls check. some (check.owner_id == "owner-1");
  assert_authority = λ calls. none;
  open_transaction_directory = λ calls. none;
  write_temporary = λ calls. none;
  link = λ calls. none;
}

abbrev pub no_calls : Calls
no_calls = record { count = 0; last_clock_value = none }

abbrev pub origin : WorkOrigin
origin = record {
  trigger_event_id = "evt-1";
  trigger_event_sequence = 1;
  event_trigger = candidates_trigger;
}

abbrev pub snapshot : AuthoritativeWorkSnapshot
snapshot = record {
  dialogue_state = started;
  registry_state = registry_one;
  work_origin = some origin;
}

abbrev pub first_claim : ClaimRequest
first_claim = record {
  session_id = "sess-1";
  request_id = "req-1";
  claim_id = "claim-1";
  work_id = "work-0123456789abcdef0123456789abcdef0123456789abcdef0123456789abcdef";
  owner_id = "owner-1";
  lease_seconds = 60;
  max_tenure_seconds = 600;
}

abbrev pub work : RunnableWork
work = record {
  session_id = "sess-1";
  registry_generation = 1;
  conversation_version = 1;
  observed_sequence = 1;
  trigger_event_id = "evt-1";
  trigger_event_sequence = 1;
  topic_run_id = none;
  kind = TriggerKind.topic_candidates;
  trigger_work_id = "w-1";
  work_id = "work-0123456789abcdef0123456789abcdef0123456789abcdef0123456789abcdef";
  trigger_runtime_epoch = "epoch-1";
  parent_turn_id = none;
  contract_digest = none;
  input_digest = digest;
  evidence_digest = digest;
  binding_digest = digest;
}

-- The lease of the first claim, which was recorded at the time 13.
abbrev pub first_lease : LeaseRecord
first_lease = acquired_lease host work "claim-1" "owner-1" 1 13 60 600

abbrev pub first_transaction : LeaseTransaction
first_transaction = committed_transaction [] work (claim_request first_claim) 13 first_lease

abbrev pub claimed : Committed
claimed = record {
  outcome = record { operation = LeaseOperation.claim; lease = first_lease; replayed = false };
  transactions = first_transaction ∷ [];
  calls = record { count = 6; last_clock_value = some 15 };
}

pub claim_lem : claim host snapshot [] [] first_claim no_calls ≡ ok claimed
unfolding model
claim_lem = refl

abbrev pub first_renewal : RenewRequest
first_renewal = record {
  session_id = "sess-1";
  request_id = "req-2";
  claim_id = "claim-1";
  work_id = "work-0123456789abcdef0123456789abcdef0123456789abcdef0123456789abcdef";
  owner_id = "owner-1";
  expected_lease_version = 1;
  lease_seconds = 120;
}

abbrev renewed_lease_at : ℕ → LeaseRecord
renewed_lease_at time = record first_lease {
  lease_version = 2;
  renewed_at = time;
  expires_at = time + 120;
}

abbrev renewed_at : ℕ → Calls → Committed
renewed_at time calls = record {
  outcome = record {
    operation = LeaseOperation.renew;
    lease = renewed_lease_at time;
    replayed = false;
  };
  transactions =
      first_transaction
      ∷ committed_transaction (first_transaction ∷ []) work (renew_request first_renewal) time
          (renewed_lease_at time)
      ∷ [];
  calls = calls;
}

abbrev pub renewed : Committed
renewed = renewed_at 19 (record { count = 12; last_clock_value = some 21 })

pub renew_lem :
    renew host snapshot
      (first_transaction ∷ [])
      (first_transaction ∷ [])
      first_renewal
      claimed.calls
    ≡ ok renewed
unfolding model
renew_lem = refl

abbrev pub check : RuntimeAuthorityCheck
check = owner_check (some LeaseOperation.renew) first_lease

abbrev pub committed : Committed
committed = renewed_at 17 (record { count = 10; last_clock_value = some 19 })

pub commit_lem :
    commit host
      (first_transaction ∷ [])
      (first_transaction ∷ [])
      work
      (renew_request first_renewal)
      check
      claimed.calls
    ≡ ok committed
unfolding model
commit_lem = refl

abbrev pub fence : PublishFence
fence = record {
  session_id = "sess-1";
  claim_id = "claim-1";
  work_id = work.work_id;
  owner_id = "owner-1";
  runtime_epoch = "epoch-1";
  lease_version = 1;
  registry_generation = 1;
}

pub publishable_lem :
    assert_publishable_for_work host fence work (first_transaction ∷ []) claimed.calls
    ≡ ok first_lease
unfolding model
publishable_lem = refl

pub history_valid : valid_history (first_transaction ∷ []) ≡ true
unfolding model
history_valid = refl

pub history_tenured :
    all (λ (t : LeaseTransaction). is_tenured t.lease) (first_transaction ∷ []) ≡ true
unfolding model
history_tenured = refl

pub renewal_valid : valid_renew_request first_renewal ≡ true
unfolding model
renewal_valid = refl
