-- ===== src/Tests/Runs.antt =====
-- The theorems on the events of a Session, at concrete snapshots.
use x_sync.Prelude.{
  Bool-eq, Error, In, List-eq, Option-eq, String, String-eq, [], arith, err, false, has, inl,
  is_distinct, map, none, ok, refl, some, true, ℕ-eq, ◌++◌, ◌+◌, ◌∷◌, ◌≡◌, ◌⊎◌,
}
use x_sync.Domain.{
  AgentTurnResult-eq, ConversationPhase, ConversationPhase-eq, CurrentWorkState-eq,
  EvidenceHealth-eq, ExportStatus-eq, GateAssessment-eq, GateId-eq, GateRequirement-eq,
  GateStatus-eq, InsightKind-eq, InsightProvenance-eq, InsightStatus-eq, LearnerModelEntry-eq,
  Lens-eq, PauseCause-eq, QuestionIntent-eq, SessionLifecycle, SessionLifecycle-eq, TaskScope-eq,
  TopicClarification-eq, TopicContract-eq, TopicLifecycle-eq, TopicRunState, TopicRunState-eq,
  TopicSummary, TopicSummary-eq, TriggerBinding-eq, TriggerKind-eq, WorkFailure-eq,
  WorkFailureCategory-eq, WorkRecoveryAction-eq, WorkStatus-eq, candidates_presented,
  present_candidates, session_started, start_session, work_dead_lettered,
}
use x_sync.Decide.Guards.{completion_guard}
use x_sync.Decide.Table.{decide}
use x_sync.Decision.{accepted, pending}
use x_sync.Identity.{derive_canonical_work_id}
use x_sync.Laws.Batch.{batch_error-decide}
use x_sync.Laws.Frame.{deltas, reduce_all_counters}
use x_sync.Laws.Ledger.{
  Extends, identity, reduce-completed_export, reduce_completed_topics, reduce_exports,
}
use x_sync.Laws.Phases.{Opens, reduce-Edge, reduce_lifecycle}
use x_sync.Laws.Progress.{reduce_progress}
use x_sync.Laws.Refused.{reduce-candidates_selected, reduce-dead_letter_clarified}
use x_sync.Laws.Valid.Model.{has-apply_model_updates, is_distinct-apply_model_updates}
use x_sync.Laws.Valid.Work.{derive_canonical_work_id_lem}
use x_sync.Lease.Model.{LeaseExhaustionProof-eq, LeaseOperation-eq}
use x_sync.Reduce.Envelope.{valid_committed_event_envelope}
use x_sync.Reduce.Pause.{completed_run}
use x_sync.Reduce.Step.{reduce, transition}
use x_sync.Registry.Model.{
  ActivateTarget-eq, ActivationKind-eq, DialogueRegistrationStatus-eq, RegisteredDialogue-eq,
}
use x_sync.Rules.{is_publishable}
use x_sync.Session.{batch_error, committed_events}
use x_sync.Tests.Data.{candidates_trigger, context, fresh, fixed_sha256}
use x_sync.Tests.Open.{model}
use x_sync.Tests.Scenario.{entry, selection_trigger}
use x_sync.Tests.Snapshots.{
  after_completed, after_request, clarification, clarified, completed_event, completed_export,
  dead_letter, dead_lettered, event_after, explained, exported, presented, requested_event,
  selected,
}
use x_sync.Text.{is_protocol_id}
use x_sync.Validate.Model.{apply_model_updates, entry_ids}
use x_sync.Validate.State.{is_valid_state}

requested_lem : reduce exported requested_event ≡ ok after_request
unfolding model
requested_lem = refl

completed_lem : reduce explained completed_event ≡ ok after_completed
unfolding model
completed_lem = refl

reduce_all_counters_example :
    (after_request.sequence ≡ 2)
    × (after_request.conversation_version
        ≡ exported.conversation_version + deltas (requested_event ∷ []))
    × (after_request.session_id ≡ "sess-1")
    × (after_request.registry_generation ≡ 1)
unfolding model
reduce_all_counters_example = reduce_all_counters exported (requested_event ∷ []) refl

reduce-Edge_example :
    (explained.phase ≡ ConversationPhase.waiting_host)
    × (after_completed.phase ≡ ConversationPhase.none_phase)
unfolding model
reduce-Edge_example = reduce-Edge explained completed_event completed_lem

reduce_lifecycle_example :
    (after_completed.lifecycle ≡ explained.lifecycle)
    ⊎ (Opens completed_event.payload
        × (explained.lifecycle ≡ SessionLifecycle.new)
        × (after_completed.lifecycle ≡ SessionLifecycle.opened))
reduce_lifecycle_example = reduce_lifecycle explained completed_event completed_lem

reduce_completed_topics_example :
    (after_completed.completed_topics ≡ explained.completed_topics)
    ⊎ ((topic : TopicRunState) × (summary : TopicSummary) × (explained.active_topic ≡ some topic)
        × (completion_guard topic summary ≡ true)
        × (is_publishable topic.evidence_health ≡ true)
        × (after_completed.completed_topics
            ≡ explained.completed_topics ++ completed_run topic summary ∷ []))
reduce_completed_topics_example = reduce_completed_topics explained completed_event completed_lem

reduce_exports_example :
    Extends (map identity exported.exports) (map identity after_request.exports)
reduce_exports_example = reduce_exports exported requested_event requested_lem

reduce-completed_export_example : In completed_export after_request.exports
reduce-completed_export_example =
    reduce-completed_export exported requested_event completed_export requested_lem (inl refl) refl

batch_error-decide_example :
    batch_error (
      committed_events
        (λ index. "evt-1")
        1
        0
        0
        (pending "cmd-1" (session_started (record { candidate_trigger = candidates_trigger }))
          ∷ []))
    ≡ none
unfolding model
batch_error-decide_example =
    batch_error-decide (λ index. "evt-1") fresh (start_session (record { command_id = "cmd-1" }))
      (context (some candidates_trigger))
      (pending "cmd-1" (session_started (record { candidate_trigger = candidates_trigger })) ∷ [])
      refl

reduce_progress_example : reduce explained completed_event ≡ ok after_completed
unfolding model
reduce_progress_example =
    reduce_progress explained completed_event after_completed (λ encoded. refl) refl refl refl refl
      refl tt refl

clarified_lem : is_valid_state clarified ≡ true
unfolding model
clarified_lem = refl

dead_letter_lem :
    transition clarified
      (event_after clarified (work_dead_lettered dead_letter))
      (work_dead_lettered dead_letter)
    ≡ ok dead_lettered
unfolding model
dead_letter_lem = refl

dead_letter_envelope :
    valid_committed_event_envelope (event_after clarified (work_dead_lettered dead_letter)) ≡ true
unfolding model
dead_letter_envelope = refl

reduce-dead_letter_clarified_example :
    (dead_lettered.phase ≡ ConversationPhase.recoverable_error)
    × (dead_lettered.topic_clarification ≡ some clarification)
    × (is_valid_state dead_lettered ≡ false)
    × (reduce clarified (event_after clarified (work_dead_lettered dead_letter))
        ≡ err Error.state_invariant_violation)
reduce-dead_letter_clarified_example =
    reduce-dead_letter_clarified clarified dead_lettered
      (event_after clarified (work_dead_lettered dead_letter)) dead_letter clarification refl refl
      clarified_lem dead_letter_envelope refl refl refl dead_letter_lem

reduce-candidates_selected_example :
    ¬ (reduce selected (event_after selected (candidates_presented presented)) ≡ ok selected)
reduce-candidates_selected_example =
    reduce-candidates_selected selected selected
      (event_after selected (candidates_presented presented)) presented "Retries" refl refl

-- The snapshot is valid, and `decide` accepts the command that leads to that event.
selected_lem :
    (is_valid_state selected ≡ true)
    × (decide selected
          (present_candidates (record { command_id = "cmd-1"; candidates = "Timeouts" ∷ [] }))
          (context (some selection_trigger))
        ≡ accepted (pending "cmd-1" (candidates_presented presented) ∷ []))
unfolding model
selected_lem = (refl, refl)

derive_canonical_work_id_lem_example :
    (work_id : String) × (derive_canonical_work_id "sess-1" "evt-1" 1 candidates_trigger
      ≡ ok work_id)
    × (is_protocol_id work_id ≡ true)
unfolding model
derive_canonical_work_id_lem_example =
    derive_canonical_work_id_lem "sess-1" "evt-1" 1 candidates_trigger (λ encoded. refl) refl refl
      (omega arith) refl

is_distinct-apply_model_updates_example :
    is_distinct (entry_ids (apply_model_updates (entry ∷ []) (entry ∷ []))) ≡ true
unfolding model
is_distinct-apply_model_updates_example =
    is_distinct-apply_model_updates (entry ∷ []) (entry ∷ []) refl refl

has-apply_model_updates_example : has entry (apply_model_updates (entry ∷ []) (entry ∷ [])) ≡ true
unfolding model
has-apply_model_updates_example =
    has-apply_model_updates (entry ∷ []) (entry ∷ []) entry refl (inl refl)
