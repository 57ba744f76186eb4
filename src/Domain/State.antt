-- ===== src/Domain/State.antt =====
-- The dialogue snapshot of xsync_v2/domain.py.
use x_sync.Prelude.{none, some, ℕ, String, Option, List}
use x_sync.Domain.Enums.{ConversationPhase, SessionLifecycle}
use x_sync.Domain.Work.{TriggerBinding, CurrentWorkState, ExportRecord}
use x_sync.Domain.Topic.{TopicClarification, TopicRunState}

pub record DialogueState : Type 0 where
  pub session_id : String
  pub registry_generation : ℕ
  pub sequence : ℕ
  pub conversation_version : ℕ
  pub lifecycle : SessionLifecycle
  pub phase : ConversationPhase
  pub candidates : List String
  pub session_work : Option CurrentWorkState
  pub active_topic : Option TopicRunState
  pub paused_topics : List TopicRunState
  pub selected_candidate : Option String
  pub topic_clarification : Option TopicClarification
  pub completed_topics : List TopicRunState
  pub exports : List ExportRecord

-- The `session_unresolved_trigger` property.
unfoldable pub session_unresolved_trigger : DialogueState → Option TriggerBinding
session_unresolved_trigger state = elim state.session_work [
  | none ↦ none
  | some work ↦ some work.trigger
]
