-- ===== src/Laws/Valid/Carry.antt =====
-- What a snapshot keeps when its sequence grows: no test of a work item, a Run or an export looks
-- further than that.
use x_sync.Prelude.{
  Bool, Option, Option-cases, String, all, all_mono, arith, inl, inr, none, refl, some, true, when,
  ℕ, ◌≡◌, ◌≤◌,
}
use x_sync.Domain.{CurrentWorkState, DialogueState, ExportRecord, TopicLifecycle, TopicRunState}
use x_sync.Identity.{Sha256}
use x_sync.Text.{is_protocol_id, valid_text}
use x_sync.Validate.Shapes.{valid_export_record}
use x_sync.Validate.State.{
  is_valid_state, valid_clarification, valid_clarification_place, valid_export_ids, valid_fields,
  valid_phase, valid_selection, valid_session_lifecycle, valid_topic_ids, valid_topics,
}
use x_sync.Validate.Topic.{valid_topic_state}
use x_sync.Validate.Work.{valid_current_work}

module _ ⦃h : Sha256⦄ where
  pub valid_current_work_mono :
      (work : CurrentWorkState) (session_id : String) (n m : ℕ)
      → n ≤ m
      → valid_current_work work session_id n ≡ true
      → valid_current_work work session_id m ≡ true
  unfolding valid_current_work
  valid_current_work_mono work session_id n m le v = ground arith

  pub valid_topic_state_mono :
      (topic : TopicRunState) (lifecycle : TopicLifecycle) (session_id : String) (n m : ℕ)
      → n ≤ m
      → valid_topic_state topic lifecycle session_id n ≡ true
      → valid_topic_state topic lifecycle session_id m ≡ true
  unfolding valid_topic_state
  valid_topic_state_mono topic lifecycle session_id n m le v = elim (Option-cases topic.work) [
    | inl idle ↦ ground arith
    | inr (work, e) ↦ ground (arith, valid_current_work_mono work session_id n m le)
  ]

pub valid_export_record_mono :
    (n m : ℕ) (item : ExportRecord)
    → n ≤ m
    → valid_export_record n item ≡ true
    → valid_export_record m item ≡ true
unfolding valid_export_record
valid_export_record_mono n m item le v = ground arith

-- The parts of a valid snapshot, with the sequence `m` in its work items, Runs and exports.
pub record Carried ⦃h : Sha256⦄ (state : DialogueState) (m : ℕ) : Type 0 where
  pub session_id : is_protocol_id state.session_id ≡ true
  pub generation : 1 ≤ state.registry_generation
  pub selected : when true valid_text state.selected_candidate ≡ true
  pub clarification : when true valid_clarification state.topic_clarification ≡ true
  pub session_work :
      when true (λ work. valid_current_work work state.session_id m) state.session_work ≡ true
  pub exports : all (valid_export_record m) state.exports ≡ true
  pub lifecycle : valid_session_lifecycle state state.lifecycle ≡ true
  pub phase : valid_phase state state.phase ≡ true
  pub selection : valid_selection state state.session_work ≡ true
  pub place : when true (valid_clarification_place state) state.topic_clarification ≡ true
  pub active :
      when true
        (λ topic. valid_topic_state topic TopicLifecycle.active state.session_id m)
        state.active_topic
      ≡ true
  pub paused :
      all
        (λ topic. valid_topic_state topic TopicLifecycle.paused state.session_id m)
        state.paused_topics
      ≡ true
  pub completed :
      all
        (λ topic. valid_topic_state topic TopicLifecycle.completed state.session_id m)
        state.completed_topics
      ≡ true
  pub topic_ids : valid_topic_ids state ≡ true
  pub export_ids : valid_export_ids state.exports ≡ true

module _ ⦃h : Sha256⦄ where
  when_mono :
      {A : Type 0} (p q : A → Bool) (o : Option A)
      → ((x : A) → p x ≡ true → q x ≡ true)
      → when true p o ≡ true
      → when true q o ≡ true
  when_mono p q none k v = refl
  when_mono p q (some x) k v = k x v

  pub valid-Carried :
      (state : DialogueState) (m : ℕ)
      → is_valid_state state ≡ true
      → state.sequence ≤ m
      → Carried state m
  unfolding is_valid_state valid_fields valid_topics
  valid-Carried state m v le = record {
    session_id = ground arith;
    generation = ground arith;
    selected = ground arith;
    clarification = ground arith;
    session_work =
        when_mono _ _ state.session_work
          (λ work. valid_current_work_mono work state.session_id state.sequence m le)
          (ground arith);
    exports =
        all_mono _ _ state.exports (λ item. valid_export_record_mono state.sequence m item le)
          (ground arith);
    lifecycle = ground arith;
    phase = ground arith;
    selection = ground arith;
    place = ground arith;
    active =
        when_mono _ _ state.active_topic
          (λ topic.
            valid_topic_state_mono topic TopicLifecycle.active state.session_id state.sequence m le)
          (ground arith);
    paused =
        all_mono _ _ state.paused_topics
          (λ topic.
            valid_topic_state_mono topic TopicLifecycle.paused state.session_id state.sequence m le)
          (ground arith);
    completed =
        all_mono _ _ state.completed_topics
          (λ topic.
            valid_topic_state_mono topic TopicLifecycle.completed state.session_id state.sequence m
              le)
          (ground arith);
    topic_ids = ground arith;
    export_ids = ground arith;
  }

  pub Carried-valid :
      (state : DialogueState) → Carried state state.sequence → is_valid_state state ≡ true
  unfolding is_valid_state valid_fields valid_topics
  Carried-valid state c = ground arith
