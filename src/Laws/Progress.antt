-- ===== src/Laws/Progress.antt =====
-- The last validation of `reduce`: when a branch succeeds, does the snapshot that it makes pass?
use mathlib.Core.Path.{subst}
use x_sync.Prelude.{String-eq, arith, false, has, none, ok, true, ◌+◌, ◌≡◌, ◌≤◌}
use x_sync.Domain.{
  CommittedDialogueEvent, DialogueEventPayload, DialogueState, SessionLifecycle,
  agent_turn_committed, candidates_presented, export_completed, export_requested, help_requested,
  learner_turn_submitted, lens_changed, session_deactivation_prepared, session_started,
  topic_clarification_answered, topic_clarification_requested, topic_completed,
  topic_exploration_requested, topic_paused, topic_resumed, topic_selection_submitted,
  topic_started, topic_switch_requested, work_dead_lettered, work_failed, work_recovery_requested,
  work_requeued,
}
use x_sync.Identity.{HasHexDigests, Sha256}
use x_sync.Laws.Frame.{Reduced-reduce, transition-Frame}
use x_sync.Laws.Valid.Carry.{Carried, Carried-valid, valid-Carried}
use x_sync.Laws.Valid.Exports.{export_completed-Carried, export_requested-Carried}
use x_sync.Laws.Valid.Failures.{
  work_dead_lettered-Carried, work_failed-Carried, work_requeued-Carried,
}
use x_sync.Laws.Valid.Leave.{
  session_deactivation_prepared-Carried, topic_completed-Carried,
  topic_exploration_requested-Carried, topic_paused-Carried, topic_started-Carried,
  topic_switch_requested-Carried,
}
use x_sync.Laws.Valid.Recovery.{work_recovery_requested-Carried}
use x_sync.Laws.Valid.Return.{topic_resumed-Carried}
use x_sync.Laws.Valid.Session.{
  candidates_presented-Carried, session_started-Carried, topic_clarification_answered-Carried,
  topic_clarification_requested-Carried, topic_selection_submitted-Carried,
}
use x_sync.Laws.Valid.Topic.{
  agent_turn_committed-Carried, help_requested-Carried, learner_turn_submitted-Carried,
  lens_changed-Carried,
}
use x_sync.Reduce.Envelope.{valid_committed_event_envelope, valid_event_payload_shape}
use x_sync.Reduce.Step.{reduce, transition}
use x_sync.Rules.{conversation_version_delta}
use x_sync.Validate.State.{is_valid_state, run_ids}

-- What a branch leaves untested, and the last validation asks for.
abbrev pub Settled : DialogueState → DialogueEventPayload → Type 0
Settled state (candidates_presented p) = state.selected_candidate ≡ none
Settled state (topic_started p) =
    (has p.contract.topic_run_id (run_ids state.paused_topics) ≡ false)
    × (has p.contract.topic_run_id (run_ids state.completed_topics) ≡ false)
Settled state (topic_exploration_requested p) = state.lifecycle ≡ SessionLifecycle.opened
Settled state (topic_resumed p) = state.lifecycle ≡ SessionLifecycle.opened
Settled state (work_recovery_requested p) = state.lifecycle ≡ SessionLifecycle.opened
Settled state (work_dead_lettered p) = state.topic_clarification ≡ none
Settled state p = Unit

module _ ⦃h : Sha256⦄ (hex : HasHexDigests h) (state : DialogueState)
    (event : CommittedDialogueEvent) (c : Carried state event.sequence)
    {next_state : DialogueState} where
  transition-Carried :
      (p : DialogueEventPayload)
      → state.sequence ≤ event.sequence
      → valid_event_payload_shape p ≡ true
      → Settled state p
      → transition state event p ≡ ok next_state
      → Carried next_state event.sequence
  unfolding transition Settled
  transition-Carried (session_started p) le s k e = session_started-Carried hex state event c p e
  transition-Carried (candidates_presented p) le s k e =
      candidates_presented-Carried hex state event c p k e
  transition-Carried (topic_selection_submitted p) le s k e =
      topic_selection_submitted-Carried hex state event c p e
  transition-Carried (topic_clarification_requested p) le s k e =
      topic_clarification_requested-Carried hex state event c p s e
  transition-Carried (topic_clarification_answered p) le s k e =
      topic_clarification_answered-Carried hex state event c p s e
  transition-Carried (topic_started p) le s k e =
      topic_started-Carried hex state event c p k.0 k.1 e
  transition-Carried (agent_turn_committed p) le s k e =
      agent_turn_committed-Carried hex state event c p e
  transition-Carried (learner_turn_submitted p) le s k e =
      learner_turn_submitted-Carried hex state event c p e
  transition-Carried (lens_changed p) le s k e = lens_changed-Carried hex state event c p e
  transition-Carried (help_requested p) le s k e = help_requested-Carried hex state event c p e
  transition-Carried (topic_completed p) le s k e = topic_completed-Carried hex state event c p s e
  transition-Carried (topic_paused p) le s k e = topic_paused-Carried hex state event c p e
  transition-Carried (topic_switch_requested p) le s k e =
      topic_switch_requested-Carried hex state event c p e
  transition-Carried (topic_exploration_requested p) le s k e =
      topic_exploration_requested-Carried hex state event c p k e
  transition-Carried (session_deactivation_prepared p) le s k e =
      session_deactivation_prepared-Carried hex state event c p e
  transition-Carried (topic_resumed p) le s k e = topic_resumed-Carried hex state event c p k e
  transition-Carried (work_failed p) le s k e = work_failed-Carried hex state event c p e
  transition-Carried (work_requeued p) le s k e = work_requeued-Carried hex state event c p e
  transition-Carried (work_dead_lettered p) le s k e =
      work_dead_lettered-Carried hex state event c p k e
  transition-Carried (work_recovery_requested p) le s k e =
      work_recovery_requested-Carried hex state event c p k e
  transition-Carried (export_requested p) le s k e = export_requested-Carried state event c p le e
  transition-Carried (export_completed p) le s k e = export_completed-Carried state event c p e

module _ ⦃h : Sha256⦄ where
  -- When the snapshot is valid, the envelope fits it, a branch of `reduce` succeeds and the payload
  -- meets what that branch leaves untested (no selected candidate where candidates are presented, a
  -- fresh run id where a topic starts, no clarification where work is dead-lettered, an open Session
  -- where a topic is explored, resumed or recovered), then the last validation passes: `reduce` gives
  -- the snapshot of the branch. Hex digests of SHA-256 are assumed to have 64 lower-case digits.
  pub reduce_progress :
      (state : DialogueState) (event : CommittedDialogueEvent) (next_state : DialogueState)
      → HasHexDigests h
      → is_valid_state state ≡ true
      → valid_committed_event_envelope event ≡ true
      → event.sequence ≡ state.sequence + 1
      → event.from_version ≡ state.conversation_version
      → event.to_version ≡ event.from_version + conversation_version_delta event.payload
      → Settled state event.payload
      → transition state event event.payload ≡ ok next_state
      → reduce state event ≡ ok next_state
  unfolding valid_committed_event_envelope
  reduce_progress state event next_state hex v n s f t k e =
      let c = valid-Carried state event.sequence v (omega arith) in
      let d = transition-Carried hex state event c event.payload (omega arith) (ground arith) k e in
      let frame = transition-Frame state event event.payload e in
      Reduced-reduce state event (record {
        valid = v;
        envelope = n;
        sequence = s;
        from_version = f;
        to_version = t;
        moved = e;
        next_valid = Carried-valid next_state (subst (Carried next_state) (ground arith) d);
      })
