-- ===== src/Laws/Valid/Ids.antt =====
-- The ids of the Runs of a Session stay distinct when a Run changes its place.
use x_sync.Prelude.{
  Bool, Bool-cases, List, Option, String, String-eq, [], all, arith, count, count-append,
  count-distinct, distinct-count, has, has-eq-false, if◌then◌else◌, inl, inr, keep, none, not, refl,
  some, true, when, ℕ, ◌++◌, ◌+◌, ◌==◌, ◌∷◌, ◌≡◌, ◌≤◌,
}
use x_sync.Domain.{DialogueState, TopicRunState}
use x_sync.Decide.Export.{single}
use x_sync.Reduce.Resume.{matching_runs, other_runs}
use x_sync.Validate.State.{active_ids, all_topic_ids, run_ids, valid_topic_ids}

-- How often an id stands in the three places of a Session.
abbrev pub places : String → List TopicRunState → List TopicRunState → Option TopicRunState → ℕ
places x paused completed active =
    count x (run_ids paused) + count x (run_ids completed) + count x (active_ids active)

fresh_id :
    (paused : List String) (active : Option TopicRunState)
    → ((x : String) → count x paused + count x (active_ids active) ≤ 1)
    → when true (λ (topic : TopicRunState). not (has topic.topic_run_id paused)) active ≡ true
fresh_id paused none k = refl
fresh_id paused (some topic) k = ground (
  arith,
  k topic.topic_run_id,
  has-eq-false topic.topic_run_id paused (ground (arith, k topic.topic_run_id)),
)

-- Ids that stand once at most pass every test.
pub valid_topic_ids_of_places :
    (state : DialogueState)
    → ((x : String) → places x state.paused_topics state.completed_topics state.active_topic ≤ 1)
    → valid_topic_ids state ≡ true
unfolding valid_topic_ids all_topic_ids
valid_topic_ids_of_places state k = ground (
  arith,
  fresh_id (run_ids state.paused_topics) state.active_topic (λ x. omega (arith, k x)),
  count-distinct (run_ids state.paused_topics) (λ x. omega (arith, k x)),
  count-distinct (run_ids state.completed_topics) (λ x. omega (arith, k x)),
  count-distinct
      (run_ids state.paused_topics
        ++ run_ids state.completed_topics
        ++ active_ids state.active_topic)
      (λ x. omega (
        arith,
        k x,
        count-append x (run_ids state.paused_topics ++ run_ids state.completed_topics)
            (active_ids state.active_topic),
        count-append x (run_ids state.paused_topics) (run_ids state.completed_topics),
      )),
)

pub places_of_valid_topic_ids :
    (state : DialogueState) (x : String)
    → valid_topic_ids state ≡ true
    → places x state.paused_topics state.completed_topics state.active_topic ≤ 1
unfolding valid_topic_ids all_topic_ids
places_of_valid_topic_ids state x v = omega (
  arith,
  distinct-count x
      (run_ids state.paused_topics
        ++ run_ids state.completed_topics
        ++ active_ids state.active_topic)
      (ground arith),
  count-append x (run_ids state.paused_topics ++ run_ids state.completed_topics)
      (active_ids state.active_topic),
  count-append x (run_ids state.paused_topics) (run_ids state.completed_topics),
)

pub count-run_ids :
    (x : String) (runs : List TopicRunState) (topic : TopicRunState)
    → count x (run_ids (runs ++ topic ∷ []))
      ≡ count x (run_ids runs) + count x (topic.topic_run_id ∷ [])
count-run_ids x [] topic = omega arith
count-run_ids x (y ∷ ys) topic = ground (arith, count-run_ids x ys topic)

-- Without the Run of an id, no other id is lost.
pub count-other_runs :
    (x topic_run_id : String) (runs : List TopicRunState)
    → count x (run_ids (other_runs topic_run_id runs))
      ≡ (if x == topic_run_id then 0 else count x (run_ids runs))
unfolding other_runs keep
count-other_runs x topic_run_id [] = ground arith
count-other_runs x topic_run_id (y ∷ ys) = ground (arith, count-other_runs x topic_run_id ys)

single-nil : (topic : TopicRunState) → single [] ≡ some topic → ⊥
unfolding single
single-nil topic e = ground arith

single-cons :
    (y topic : TopicRunState) (ys : List TopicRunState) → single (y ∷ ys) ≡ some topic → y ≡ topic
unfolding single
single-cons y topic [] e = ground arith
single-cons y topic (z ∷ zs) e = ground arith

-- A Run that is found under an id has it, stands in the list, and passes what all of the list pass.
pub single_match :
    (p : TopicRunState → Bool) (topic_run_id : String) (runs : List TopicRunState)
    (topic : TopicRunState)
    → single (matching_runs topic_run_id runs) ≡ some topic
    → all p runs ≡ true
    → (topic.topic_run_id ≡ topic_run_id)
      × (p topic ≡ true)
      × (1 ≤ count topic_run_id (run_ids runs))
unfolding matching_runs keep all
single_match p topic_run_id [] topic e h = absurd (single-nil topic e)
single_match p topic_run_id (y ∷ ys) topic e h =
    elim (Bool-cases (y.topic_run_id == topic_run_id)) [
      | inl same ↦
          let q =
            single-cons y topic
              (keep (λ (item : TopicRunState). item.topic_run_id == topic_run_id) ys)
              (ground arith) in
          (ground (arith, q), ground (arith, q), ground arith)
      | inr other ↦
          let r = single_match p topic_run_id ys topic (ground arith) (ground arith) in
          (r.0, r.1, ground (arith, r.2))
    ]
