-- ===== src/Domain/Commands.antt =====
-- The commands of xsync_v2/domain.py; `DialogueCommand` is the union of their classes.
use x_sync.Prelude.{String, Option, List}
use x_sync.Domain.Enums.{Lens, WorkRecoveryAction}
use x_sync.Domain.Work.{WorkFailure}
use x_sync.Domain.Topic.{TopicContract, AgentTurnResult, TopicSummary}

pub record StartSession : Type 0 where
  pub command_id : String

pub record PresentCandidates : Type 0 where
  pub command_id : String
  pub candidates : List String

pub record SelectTopic : Type 0 where
  pub command_id : String
  pub candidate : String

pub record SubmitCustomTopic : Type 0 where
  pub command_id : String
  pub topic : String

pub record RequestTopicClarification : Type 0 where
  pub command_id : String
  pub question_id : String
  pub question : String

pub record AnswerTopicClarification : Type 0 where
  pub command_id : String
  pub question_id : String
  pub answer : String

pub record SetLens : Type 0 where
  pub command_id : String
  pub lens : Lens

pub record RequestHelp : Type 0 where
  pub command_id : String
  pub question_id : String

pub record CompleteTopic : Type 0 where
  pub command_id : String
  pub summary : TopicSummary

pub record StartTopic : Type 0 where
  pub command_id : String
  pub contract : TopicContract
  pub selected_candidate : Option String

pub record CommitAgentTurn : Type 0 where
  pub command_id : String
  pub result : AgentTurnResult

pub record SubmitLearnerTurn : Type 0 where
  pub command_id : String
  pub question_id : String
  pub learner_turn_id : String
  pub text : String

pub record PauseTopic : Type 0 where
  pub command_id : String

pub record SwitchTopic : Type 0 where
  pub command_id : String

pub record ExploreTopics : Type 0 where
  pub command_id : String

pub record ResumeTopic : Type 0 where
  pub command_id : String
  pub topic_run_id : String

pub record ReportWorkFailure : Type 0 where
  pub command_id : String
  pub work_id : String
  pub failure : WorkFailure

pub record RecoverWork : Type 0 where
  pub command_id : String
  pub dead_work_id : String
  pub action : WorkRecoveryAction

pub record RequestExport : Type 0 where
  pub command_id : String
  pub export_id : String
  pub intent_id : String
  pub requested_at : String
  pub payload_digest : String

pub record CompleteExport : Type 0 where
  pub command_id : String
  pub export_id : String
  pub intent_id : String
  pub completed_at : String
  pub json_path : String
  pub json_digest : String
  pub markdown_path : String
  pub markdown_digest : String
  pub freshness_overlay_digest : String

pub record PrepareSessionDeactivation : Type 0 where
  pub command_id : String

pub data DialogueCommand : Type 0 where
  start_session : StartSession → DialogueCommand
  present_candidates : PresentCandidates → DialogueCommand
  select_topic : SelectTopic → DialogueCommand
  submit_custom_topic : SubmitCustomTopic → DialogueCommand
  request_topic_clarification : RequestTopicClarification → DialogueCommand
  answer_topic_clarification : AnswerTopicClarification → DialogueCommand
  set_lens : SetLens → DialogueCommand
  request_help : RequestHelp → DialogueCommand
  complete_topic : CompleteTopic → DialogueCommand
  start_topic : StartTopic → DialogueCommand
  commit_agent_turn : CommitAgentTurn → DialogueCommand
  submit_learner_turn : SubmitLearnerTurn → DialogueCommand
  pause_topic : PauseTopic → DialogueCommand
  switch_topic : SwitchTopic → DialogueCommand
  explore_topics : ExploreTopics → DialogueCommand
  resume_topic : ResumeTopic → DialogueCommand
  report_work_failure : ReportWorkFailure → DialogueCommand
  recover_work : RecoverWork → DialogueCommand
  request_export : RequestExport → DialogueCommand
  complete_export : CompleteExport → DialogueCommand

-- `command.command_id`, a field of every command.
unfoldable pub command_id : DialogueCommand → String
command_id (start_session c) = c.command_id
command_id (present_candidates c) = c.command_id
command_id (select_topic c) = c.command_id
command_id (submit_custom_topic c) = c.command_id
command_id (request_topic_clarification c) = c.command_id
command_id (answer_topic_clarification c) = c.command_id
command_id (set_lens c) = c.command_id
command_id (request_help c) = c.command_id
command_id (complete_topic c) = c.command_id
command_id (start_topic c) = c.command_id
command_id (commit_agent_turn c) = c.command_id
command_id (submit_learner_turn c) = c.command_id
command_id (pause_topic c) = c.command_id
command_id (switch_topic c) = c.command_id
command_id (explore_topics c) = c.command_id
command_id (resume_topic c) = c.command_id
command_id (report_work_failure c) = c.command_id
command_id (recover_work c) = c.command_id
command_id (request_export c) = c.command_id
command_id (complete_export c) = c.command_id
