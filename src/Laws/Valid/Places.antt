-- ===== src/Laws/Valid/Places.antt =====
-- Moving a Run between the places of a snapshot keeps the snapshot valid.
use x_sync.Prelude.{
  Bool, Bool-cases, List, String, String-eq, [], all, all-append, ap, arith, count-has, false, has,
  inl, inr, none, some, true, ◌++◌, ◌==◌, ◌∷◌, ◌≡◌, ◌≢◌, ◌≤◌,
}
use x_sync.Domain.{
  CommittedDialogueEvent, ConversationPhase, CurrentWorkState, DialogueState, SessionLifecycle,
  TopicLifecycle, TopicRunState, TriggerBinding, TriggerKind,
}
use x_sync.Identity.{Sha256}
use x_sync.Laws.Valid.Carry.{Carried}
use x_sync.Laws.Valid.Ids.{
  count-run_ids, places, places_of_valid_topic_ids, valid_topic_ids_of_places,
}
use x_sync.Laws.Valid.Topic.{no_session_work}
use x_sync.Laws.Valid.Work.{Queued}
use x_sync.Reduce.Envelope.{advance}
use x_sync.Reduce.Pause.{seeking}
use x_sync.Validate.Shapes.{valid_trigger}
use x_sync.Validate.State.{
  active_work, has_open_turn, holds_one_work, is_waiting_status, run_ids, valid_clarification_place,
  valid_ended, valid_new, valid_phase, valid_selection, valid_session_kind, valid_session_lifecycle,
  valid_session_work, valid_topic_ids,
}
use x_sync.Validate.Topic.{valid_topic_state}

pub all-append_one :
    (p : TopicRunState → Bool) (runs : List TopicRunState) (topic : TopicRunState)
    → all p runs ≡ true
    → p topic ≡ true
    → all p (runs ++ topic ∷ []) ≡ true
unfolding all
all-append_one p runs topic a v = ground (arith, all-append p runs (topic ∷ []))

module _ ⦃h : Sha256⦄ (state : DialogueState) (ids : valid_topic_ids state ≡ true) where
  started_places :
      (topic : TopicRunState)
      → state.active_topic ≡ none
      → has topic.topic_run_id (run_ids state.paused_topics) ≡ false
      → has topic.topic_run_id (run_ids state.completed_topics) ≡ false
      → (x : String) → places x state.paused_topics state.completed_topics (some topic) ≤ 1
  started_places topic a p q x = elim (Bool-cases (x == topic.topic_run_id)) [
    | inl same ↦ ground (arith, count-has topic.topic_run_id _ p, count-has topic.topic_run_id _ q)
    | inr other ↦ ground (arith, places_of_valid_topic_ids state x ids)
  ]

  pub paused_places :
      (topic paused : TopicRunState)
      → state.active_topic ≡ some topic
      → paused.topic_run_id ≡ topic.topic_run_id
      → (x : String) → places x (state.paused_topics ++ paused ∷ []) state.completed_topics none ≤ 1
  paused_places topic paused a e x = ground (
    arith,
    places_of_valid_topic_ids state x ids,
    count-run_ids x state.paused_topics paused,
    ap (λ t. places x state.paused_topics state.completed_topics t) a,
  )

  pub resting_places :
      state.active_topic ≡ none
      → (x : String) → places x state.paused_topics state.completed_topics none ≤ 1
  resting_places a x = ground (
    arith,
    places_of_valid_topic_ids state x ids,
    ap (λ t. places x state.paused_topics state.completed_topics t) a,
  )

  pub completed_places :
      (topic completed : TopicRunState)
      → state.active_topic ≡ some topic
      → completed.topic_run_id ≡ topic.topic_run_id
      → (x : String)
      → places x state.paused_topics (state.completed_topics ++ completed ∷ []) none ≤ 1
  completed_places topic completed a e x = ground (
    arith,
    places_of_valid_topic_ids state x ids,
    count-run_ids x state.completed_topics completed,
    ap (λ t. places x state.paused_topics state.completed_topics t) a,
  )

module _ ⦃h : Sha256⦄ (state : DialogueState) (event : CommittedDialogueEvent)
    (c : Carried state event.sequence) where
  abbrev started_state : TopicRunState → DialogueState
  started_state topic =
      let next_state = advance state event in
      record next_state {
        active_topic = some topic;
        candidates = [];
        selected_candidate = none;
        topic_clarification = none;
        session_work = none;
        phase = ConversationPhase.waiting_host;
      }

  -- A Session in a phase of its own is open.
  pub running_opened :
      state.phase ≢ ConversationPhase.none_phase → state.lifecycle ≡ SessionLifecycle.opened
  unfolding valid_session_lifecycle valid_new valid_ended
  running_opened r = ground (arith, c.lifecycle)

  pub started_state-Carried :
      (topic : TopicRunState) (work : CurrentWorkState)
      → state.active_topic ≡ none
      → state.lifecycle ≡ SessionLifecycle.opened
      → topic.work ≡ some work
      → topic.current_agent_turn ≡ none
      → is_waiting_status work.status ≡ true
      → valid_topic_state topic TopicLifecycle.active state.session_id event.sequence ≡ true
      → has topic.topic_run_id (run_ids state.paused_topics) ≡ false
      → has topic.topic_run_id (run_ids state.completed_topics) ≡ false
      → Carried (started_state topic) event.sequence
  unfolding advance valid_session_lifecycle valid_new valid_ended valid_phase valid_selection
      valid_clarification_place holds_one_work is_waiting_status active_work has_open_turn
  started_state-Carried topic work a l w t q v p d = ground (
    arith,
    c,
    valid_topic_ids_of_places (started_state topic) (started_places state c.topic_ids topic a p d),
  )

  -- The Session rests after its Run is paused or completed.
  abbrev resting_state : List TopicRunState → List TopicRunState → DialogueState
  resting_state paused completed =
      let next_state = advance state event in
      record next_state {
        active_topic = none;
        paused_topics = paused;
        completed_topics = completed;
        phase = ConversationPhase.none_phase;
      }

  pub resting_state-Carried :
      (topic : TopicRunState) (paused completed : List TopicRunState)
      → state.active_topic ≡ some topic
      → all
          (λ topic. valid_topic_state topic TopicLifecycle.paused state.session_id event.sequence)
          paused
        ≡ true
      → all
          (λ topic.
            valid_topic_state topic TopicLifecycle.completed state.session_id event.sequence)
          completed
        ≡ true
      → ((x : String) → places x paused completed none ≤ 1)
      → Carried (resting_state paused completed) event.sequence
  unfolding advance valid_session_lifecycle valid_new valid_ended valid_phase valid_selection
      valid_clarification_place holds_one_work is_waiting_status active_work has_open_turn
  resting_state-Carried topic paused completed a v w k =
      let n = no_session_work state event c topic a in
      ground (arith, c, valid_topic_ids_of_places (resting_state paused completed) k)

  -- The Session looks for candidates with the work item `work`.
  pub seeking-Carried :
      (paused : List TopicRunState) (trigger : TriggerBinding) (work : CurrentWorkState)
      → state.lifecycle ≡ SessionLifecycle.opened
      → Queued state.session_id event trigger 1 none work
      → valid_trigger trigger TriggerKind.topic_candidates none trigger.evidence_digest ≡ true
      → all
          (λ topic. valid_topic_state topic TopicLifecycle.paused state.session_id event.sequence)
          paused
        ≡ true
      → ((x : String) → places x paused state.completed_topics none ≤ 1)
      → Carried (seeking state event work paused) event.sequence
  unfolding advance valid_session_lifecycle valid_new valid_ended valid_phase valid_selection
      valid_clarification_place holds_one_work is_waiting_status active_work has_open_turn
      valid_session_work valid_session_kind valid_trigger
  seeking-Carried paused trigger work l q t v k =
      ground (arith, c, q, valid_topic_ids_of_places (seeking state event work paused) k)
