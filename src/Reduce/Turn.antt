-- ===== src/Reduce/Turn.antt =====
-- xsync_v2/state_machine.py: the branches of `reduce` for `LearnerTurnSubmitted`, `LensChanged` and
-- `HelpRequested`.
use x_sync.Prelude.{
  Option-eq, Result, String-eq, [], has, is_none, none, not, ok, some, ◌!=◌, ◌&&◌, ◌++◌, ◌==◌,
  ◌>>=◌, ◌>>◌, ◌||◌, ◌∷◌,
}
use x_sync.Domain.{
  CommittedDialogueEvent, ConversationPhase, ConversationPhase-eq, CurrentWorkState, DialogueState,
  HelpRequested, LearnerTurnSubmitted, Lens-eq, LensChanged, TopicRunState, TriggerKind, lens,
  open_question_id,
}
use x_sync.Decide.Guards.{lens_parent}
use x_sync.Identity.{Sha256}
use x_sync.Reduce.Envelope.{advance, require}
use x_sync.Reduce.Topic.{need_topic}
use x_sync.Text.{valid_text}
use x_sync.Validate.Shapes.{valid_trigger}
use x_sync.Validate.Work.{queued_work_from_event}

-- The Run goes on to wait for the host with this work item.
abbrev pub waiting_on : DialogueState → CommittedDialogueEvent → TopicRunState → DialogueState
waiting_on state event topic =
    let next_state = advance state event in
    record next_state { active_topic = some topic; phase = ConversationPhase.waiting_host }

-- The Run with a learner turn, and the work item that answers it.
unfoldable pub with_learner_turn :
    TopicRunState → LearnerTurnSubmitted → CurrentWorkState → TopicRunState
with_learner_turn topic payload work = record topic {
  current_agent_turn = none;
  work = some work;
  learner_turn_ids = topic.learner_turn_ids ++ payload.learner_turn_id ∷ [];
  last_learner_turn_id = some payload.learner_turn_id;
  last_learner_text = some payload.text;
}

module _ ⦃h : Sha256⦄ where
  unfoldable pub reduce_learner_turn_on :
      DialogueState
      → TopicRunState
      → CommittedDialogueEvent
      → LearnerTurnSubmitted
      → Result DialogueState
  reduce_learner_turn_on state topic event payload = do
    require (
        (state.phase == ConversationPhase.awaiting_user)
        && (open_question_id topic == some payload.question_id)
        && is_none topic.work
        && valid_text payload.question_id
        && valid_text payload.learner_turn_id
        && valid_text payload.text
        && not (has payload.learner_turn_id topic.learner_turn_ids)
        && valid_trigger payload.next_trigger TriggerKind.learner_reply
            (some topic.contract.contract_digest) topic.evidence_digest
        && (payload.next_trigger.parent_turn_id == some payload.learner_turn_id))
    work ← queued_work_from_event state.session_id event payload.next_trigger 1 none
    ok (waiting_on state event (with_learner_turn topic payload work))

  unfoldable pub reduce_learner_turn_submitted :
      DialogueState → CommittedDialogueEvent → LearnerTurnSubmitted → Result DialogueState
  reduce_learner_turn_submitted state event payload =
      need_topic state.active_topic (λ topic. reduce_learner_turn_on state topic event payload)

  unfoldable pub reduce_lens_on :
      DialogueState → TopicRunState → CommittedDialogueEvent → LensChanged → Result DialogueState
  reduce_lens_on state topic event payload = do
    require (
        ((state.phase == ConversationPhase.awaiting_user)
          || (state.phase == ConversationPhase.waiting_host))
        && (payload.topic_run_id == topic.topic_run_id)
        && (payload.lens != lens topic)
        && valid_trigger payload.next_trigger TriggerKind.lens_changed
            (some topic.contract.contract_digest) topic.evidence_digest)
    require (payload.next_trigger.parent_turn_id == lens_parent state topic)
    work ← queued_work_from_event state.session_id event payload.next_trigger 1 none
    ok (
        waiting_on state event (record topic {
          current_lens = some payload.lens;
          current_agent_turn = none;
          work = some work;
        }))

  unfoldable pub reduce_lens_changed :
      DialogueState → CommittedDialogueEvent → LensChanged → Result DialogueState
  reduce_lens_changed state event payload =
      need_topic state.active_topic (λ topic. reduce_lens_on state topic event payload)

  unfoldable pub reduce_help_on :
      DialogueState → TopicRunState → CommittedDialogueEvent → HelpRequested → Result DialogueState
  reduce_help_on state topic event payload = do
    require (
        (state.phase == ConversationPhase.awaiting_user)
        && (open_question_id topic == some payload.question_id)
        && (payload.topic_run_id == topic.topic_run_id)
        && valid_trigger payload.next_trigger TriggerKind.help (some topic.contract.contract_digest)
            topic.evidence_digest
        && (payload.next_trigger.parent_turn_id == some payload.question_id))
    work ← queued_work_from_event state.session_id event payload.next_trigger 1 none
    ok (waiting_on state event (record topic { current_agent_turn = none; work = some work }))

  unfoldable pub reduce_help_requested :
      DialogueState → CommittedDialogueEvent → HelpRequested → Result DialogueState
  reduce_help_requested state event payload =
      need_topic state.active_topic (λ topic. reduce_help_on state topic event payload)
