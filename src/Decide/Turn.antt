-- ===== src/Decide/Turn.antt =====
-- xsync_v2/state_machine.py: `_set_lens` to `_explore_topics`.
use x_sync.Prelude.{
  Option, Option-eq, String-eq, if◌then◌else◌, is_empty, is_some, none, not, some, ◌!=◌, ◌&&◌, ◌==◌,
  ◌||◌,
}
use x_sync.Domain.{
  CompleteTopic, ConversationPhase, ConversationPhase-eq, CurrentWorkState, DecisionContext,
  DialogueState, ExploreTopics, Lens-eq, RequestHelp, SetLens, SwitchTopic, TopicRunState,
  TriggerBinding-eq, TriggerKind, WorkStatus, WorkStatus-eq, help_requested, lens, lens_changed,
  open_question_id, topic_completed, topic_exploration_requested, topic_switch_requested,
}
use x_sync.Decide.Guards.{completion_guard, fingerprint, lens_parent, same_evidence}
use x_sync.Decide.Topic.{on_topic}
use x_sync.Decision.{Code, Decision, accept, on_trigger, rejected}
use x_sync.Rules.{is_publishable}
use x_sync.Text.{is_protocol_id}
use x_sync.Validate.Model.{valid_topic_summary}
use x_sync.Validate.Work.{matching_trigger}

unfoldable pub set_lens_on : DialogueState → TopicRunState → SetLens → DecisionContext → Decision
set_lens_on state topic command context =
    if state.phase != ConversationPhase.awaiting_user
      && state.phase != ConversationPhase.waiting_host
    then rejected Code.topic_state_conflict
    else if command.lens == lens topic
    then rejected Code.lens_unchanged
    else if not (same_evidence context.evidence topic)
    then rejected Code.evidence_stale
    else on_trigger
        (matching_trigger context.trigger TriggerKind.lens_changed
          (some topic.contract.contract_digest) topic.evidence_digest)
        Code.validation_failed
        λ trigger.
          if trigger.parent_turn_id != lens_parent state topic
          then rejected Code.validation_failed
          else accept command.command_id (
              lens_changed (record {
                topic_run_id = topic.topic_run_id;
                lens = command.lens;
                next_trigger = trigger;
              }))

unfoldable pub set_lens_handler : DialogueState → SetLens → DecisionContext → Decision
set_lens_handler state command context =
    on_topic state.active_topic (λ topic. set_lens_on state topic command context)

unfoldable pub request_help_on : TopicRunState → RequestHelp → DecisionContext → Decision
request_help_on topic command context =
    if open_question_id topic != some command.question_id
    then rejected Code.topic_state_conflict
    else if not (is_protocol_id command.question_id)
    then rejected Code.validation_failed
    else if not (same_evidence context.evidence topic)
    then rejected Code.evidence_stale
    else on_trigger
        (matching_trigger context.trigger TriggerKind.help (some topic.contract.contract_digest)
          topic.evidence_digest)
        Code.validation_failed
        λ trigger.
          if trigger.parent_turn_id != some command.question_id
          then rejected Code.validation_failed
          else accept command.command_id (
              help_requested (record {
                topic_run_id = topic.topic_run_id;
                question_id = command.question_id;
                next_trigger = trigger;
              }))

unfoldable pub request_help_handler : DialogueState → RequestHelp → DecisionContext → Decision
request_help_handler state command context =
    if state.phase != ConversationPhase.awaiting_user
    then rejected Code.topic_state_conflict
    else on_topic state.active_topic (λ topic. request_help_on topic command context)

unfoldable pub complete_topic_on :
    DialogueState → TopicRunState → CurrentWorkState → CompleteTopic → DecisionContext → Decision
complete_topic_on state topic work command context =
    if work.status != WorkStatus.queued
    then rejected Code.topic_state_conflict
    else if not (valid_topic_summary command.summary)
    then rejected Code.validation_failed
    else if context.trigger != some work.trigger || not (same_evidence context.evidence topic)
    then rejected Code.evidence_stale
    else if not (is_publishable context.evidence.health)
    then rejected Code.evidence_stale
    else if not (completion_guard topic command.summary)
    then rejected Code.topic_completion_guard_failed
    else accept command.command_id (
        topic_completed (record {
          topic_run_id = topic.topic_run_id;
          summary = command.summary;
          trigger = work.trigger;
          evidence = context.evidence;
          as_of_sequence = state.sequence;
          evidence_fingerprint = fingerprint context.evidence;
        }))

-- A handler that needs a work item.
abbrev pub on_work : Option CurrentWorkState → (CurrentWorkState → Decision) → Decision
on_work none rest = rejected Code.topic_state_conflict
on_work (some work) rest = rest work

unfoldable pub complete_topic_handler : DialogueState → CompleteTopic → DecisionContext → Decision
complete_topic_handler state command context =
    if state.phase != ConversationPhase.waiting_host
    then rejected Code.topic_state_conflict
    else on_topic state.active_topic
        λ topic. on_work topic.work (λ work. complete_topic_on state topic work command context)

unfoldable pub switch_topic_handler : DialogueState → SwitchTopic → DecisionContext → Decision
switch_topic_handler state command context = on_topic state.active_topic λ topic.
    on_trigger
      (matching_trigger context.trigger TriggerKind.topic_candidates none
        context.evidence.evidence_digest)
      Code.validation_failed
      λ trigger. accept command.command_id (
        topic_switch_requested
          (record { topic_run_id = topic.topic_run_id; candidate_trigger = trigger }))

unfoldable pub explore_topics_handler : DialogueState → ExploreTopics → DecisionContext → Decision
explore_topics_handler state command context =
    if state.phase != ConversationPhase.none_phase
      || is_some state.active_topic
      || is_some state.session_work
      || (is_empty state.completed_topics && is_empty state.paused_topics)
    then rejected Code.topic_state_conflict
    else on_trigger
        (matching_trigger context.trigger TriggerKind.topic_candidates none
          context.evidence.evidence_digest)
        Code.validation_failed
        λ trigger.
          accept command.command_id
            (topic_exploration_requested (record { candidate_trigger = trigger }))
