-- ===== src/Decide/Quiesce.antt =====
-- xsync_v2/state_machine.py: `decide_fenced_quiesce`.
use x_sync.Prelude.{
  Bool, Option, String-eq, [], if◌then◌else◌, leb, none, not, some, ℕ-eq, ◌!=◌, ◌&&◌, ◌+◌, ◌==◌,
}
use x_sync.Domain.{
  ConversationPhase, ConversationPhase-eq, DialogueEventPayload, DialogueState,
  FencedQuiesceContext, PauseCause, PrepareSessionDeactivation, SessionLifecycle,
  SessionLifecycle-eq, TopicRunState, TriggerBinding, session_deactivation_prepared,
  session_unresolved_trigger, topic_paused,
}
use x_sync.Decision.{Code, Decision, accept, accepted, rejected}
use x_sync.Identity.{Sha256}
use x_sync.Text.{valid_text}
use x_sync.Validate.State.{is_valid_state}

-- The tests on the command and the fence, which give `VALIDATION_FAILED`.
unfoldable pub valid_quiesce : PrepareSessionDeactivation → FencedQuiesceContext → Bool
valid_quiesce command context =
    valid_text command.command_id
    && valid_text context.handoff_id
    && valid_text context.source_session_id
    && leb 1 context.source_generation
    && leb 1 context.fence_generation

-- The fence is the next generation of this Session.
unfoldable pub fences : DialogueState → FencedQuiesceContext → Bool
fences state context =
    (state.lifecycle != SessionLifecycle.ended)
    && (context.source_session_id == state.session_id)
    && (context.source_generation == state.registry_generation)
    && (context.fence_generation == context.source_generation + 1)

abbrev pub prepared_event : FencedQuiesceContext → Option TriggerBinding → DialogueEventPayload
prepared_event context superseded_trigger = session_deactivation_prepared (record {
  handoff_id = context.handoff_id;
  fence_generation = context.fence_generation;
  superseded_trigger = superseded_trigger;
})

abbrev pub fenced_pause : FencedQuiesceContext → TopicRunState → DialogueEventPayload
fenced_pause context topic = topic_paused (record {
  topic_run_id = topic.topic_run_id;
  cause = PauseCause.session_deactivation;
  handoff_id = some context.handoff_id;
  fence_generation = some context.fence_generation;
})

unfoldable pub quiesce_open :
    DialogueState → PrepareSessionDeactivation → FencedQuiesceContext → Decision
quiesce_open state command context = elim state.active_topic [
  | some topic ↦ accept command.command_id (fenced_pause context topic)
  | none ↦
      if state.phase == ConversationPhase.none_phase
      then accepted []
      else accept command.command_id (prepared_event context (session_unresolved_trigger state))
]

module _ ⦃h : Sha256⦄ where
  unfoldable pub decide_fenced_quiesce :
      DialogueState → PrepareSessionDeactivation → FencedQuiesceContext → Decision
  decide_fenced_quiesce state command context =
      if not (is_valid_state state)
      then rejected Code.state_invariant_violation
      else if not (valid_quiesce command context)
      then rejected Code.validation_failed
      else if not (fences state context)
      then rejected Code.session_deactivated
      else if state.lifecycle == SessionLifecycle.new
      then (if state.phase != ConversationPhase.none_phase
          then rejected Code.state_invariant_violation
          else accept command.command_id (prepared_event context none))
      else quiesce_open state command context
