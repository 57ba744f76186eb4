-- ===== src/Laws/Runnable.antt =====
-- The work that xsync_v2/work.py projects from a valid snapshot.
use Prim.Native.String.{◌++◌ as append}
use x_sync.Prelude.{
  List, Option-cases, Result-cases, String, [], arith, inl, inr, leb, ok, refl, some, true, ℕ, ◌++◌,
  ◌∷◌, ◌≡◌,
}
use x_sync.Domain.{
  ConversationPhase, CurrentWorkState, DialogueState, SessionLifecycle, TopicLifecycle,
  TopicRunState,
}
use x_sync.Identity.{HasHexDigests, Sha256, derive_canonical_work_id, is_canonical_trigger_binding}
use x_sync.Laws.Valid.Work.{codes-append}
use x_sync.Text.{
  after, codes, is_hex64, is_optional_protocol_id, is_protocol_id, is_sha256_digest,
  sha256_digest_pattern,
}
use x_sync.Validate.Shapes.{valid_contract, valid_contract_shape}
use x_sync.Validate.State.{is_valid_state, valid_fields, valid_topics}
use x_sync.Validate.Topic.{valid_topic_state}
use x_sync.Validate.Work.{is_expected_id, valid_current_work}
use x_sync.Work.{
  RunnableWork, WorkOrigin, binding_tree, derive_queued, derive_runnable_work, derive_waiting,
  derive_work_id, has_runnable_work_id, origin_is_valid, origin_matches, provisional_work,
  queued_candidates, queued_of, topic_run_id_of, valid_work_shape, validate_runnable_work,
  work_binding_digest, work_of_topic,
}

after-append : (prefix cs : List ℕ) → after prefix (prefix ++ cs) ≡ some cs
unfolding after
after-append [] cs = refl
after-append (c ∷ prefix) cs = ground (arith, after-append prefix cs)

is_sha256_digest-hex :
    (hex : String) → is_hex64 (codes hex) ≡ true → is_sha256_digest (append "sha256:" hex) ≡ true
unfolding is_sha256_digest sha256_digest_pattern
is_sha256_digest-hex hex v =
    rw (codes-append "sha256:" hex) (ground (arith, after-append (codes "sha256:") (codes hex)))

module _ ⦃h : Sha256⦄ (topic : TopicRunState) (session_id : String) (sequence : ℕ)
    (v : valid_topic_state topic TopicLifecycle.active session_id sequence ≡ true) where
  topic_work-valid :
      (work : CurrentWorkState)
      → topic.work ≡ some work
      → valid_current_work work session_id sequence ≡ true
  unfolding valid_topic_state
  topic_work-valid work s = ground arith

  topic_contract-valid :
      (valid_contract_shape topic.contract ≡ true)
      × (topic.topic_run_id ≡ topic.contract.topic_run_id)
  unfolding valid_topic_state valid_contract
  topic_contract-valid = (ground arith, ground arith)

  topic_run_id-valid : is_protocol_id topic.topic_run_id ≡ true
  unfolding valid_contract_shape
  topic_run_id-valid = let (a, b) = topic_contract-valid in ground arith

module _ ⦃h : Sha256⦄ (state : DialogueState) (current : CurrentWorkState)
    (v : is_valid_state state ≡ true) (q : queued_candidates state ≡ current ∷ []) where
  queued-session :
      (work : CurrentWorkState)
      → state.session_work ≡ some work
      → valid_current_work work state.session_id state.sequence ≡ true
  unfolding is_valid_state valid_fields
  queued-session work s = ground arith

  topic-valid :
      (topic : TopicRunState)
      → state.active_topic ≡ some topic
      → valid_topic_state topic TopicLifecycle.active state.session_id state.sequence ≡ true
  unfolding is_valid_state valid_topics
  topic-valid topic a = ground arith

  queued-valid : valid_current_work current state.session_id state.sequence ≡ true
  unfolding queued_of work_of_topic
  queued-valid = elim (Option-cases state.session_work) [
    | inr (work, s) ↦
        let v1 = queued-session work s in
        elim (Option-cases state.active_topic) [
          | inl n ↦ ground arith
          | inr (topic, a) ↦
              let v2 =
                topic_work-valid topic state.session_id state.sequence (topic-valid topic a) in
              elim (Option-cases topic.work) [
                | inl n ↦ ground arith
                | inr (other, t) ↦ ground (arith, v2 other t)
              ]
        ]
    | inl s ↦ elim (Option-cases state.active_topic) [
      | inl n ↦ ground arith
      | inr (topic, a) ↦
          let v2 = topic_work-valid topic state.session_id state.sequence (topic-valid topic a) in
          elim (Option-cases topic.work) [
            | inl n ↦ ground arith
            | inr (other, t) ↦ ground (arith, v2 other t)
          ]
    ]
  ]

  run_id-valid : is_optional_protocol_id (topic_run_id_of state.active_topic) ≡ true
  unfolding is_optional_protocol_id
  run_id-valid = elim (Option-cases state.active_topic) [
    | inl n ↦ ground arith
    | inr (topic, a) ↦
        let p = topic_run_id-valid topic state.session_id state.sequence (topic-valid topic a) in
        ground arith
  ]

fields-valid :
    ⦃h : Sha256⦄ (state : DialogueState)
    → is_valid_state state ≡ true
    → (is_protocol_id state.session_id ≡ true) × (leb 1 state.registry_generation ≡ true)
unfolding is_valid_state valid_fields
fields-valid state v = (ground arith, ground arith)

derive-current :
    ⦃h : Sha256⦄ (current : CurrentWorkState) (session_id : String) (sequence : ℕ)
    → valid_current_work current session_id sequence ≡ true
    → derive_canonical_work_id session_id current.trigger_event_id current.trigger_event_sequence
        current.trigger
      ≡ ok current.work_id
unfolding valid_current_work is_expected_id
derive-current current session_id sequence v =
    elim (Result-cases (
      derive_canonical_work_id session_id current.trigger_event_id current.trigger_event_sequence
        current.trigger)) [ inl (code, e) ↦ ground arith | inr (work_id, e) ↦ ground arith ]

module _ ⦃h : Sha256⦄ (hex : HasHexDigests h) (state : DialogueState) (current : CurrentWorkState)
    (origin : WorkOrigin) where
  -- The work that `derive_runnable_work` makes.
  abbrev pub projected : RunnableWork
  projected = record (provisional_work state origin current current.work_id "") {
    binding_digest = work_binding_digest (provisional_work state origin current current.work_id "");
  }

  projected-shape :
      is_valid_state state ≡ true
      → queued_candidates state ≡ current ∷ []
      → origin_matches origin current ≡ true
      → valid_work_shape projected ≡ true
  unfolding valid_work_shape provisional_work origin_matches valid_current_work
      is_canonical_trigger_binding work_binding_digest
  projected-shape v q m =
      let w = queued-valid state current v q in
      let r = run_id-valid state current v q in
      let d =
        is_sha256_digest-hex
          (h.hexdigest (binding_tree (provisional_work state origin current current.work_id "")))
          (hex _) in
      let f = fields-valid state v in ground arith

  projected-id :
      is_valid_state state ≡ true
      → queued_candidates state ≡ current ∷ []
      → origin_matches origin current ≡ true
      → has_runnable_work_id projected ≡ true
  unfolding has_runnable_work_id provisional_work origin_matches
  projected-id v q m =
      let d =
        derive-current current state.session_id state.sequence (queued-valid state current v q) in
      ground arith

  projected-valid :
      is_valid_state state ≡ true
      → queued_candidates state ≡ current ∷ []
      → origin_matches origin current ≡ true
      → validate_runnable_work projected ≡ ok projected
  unfolding validate_runnable_work work_binding_digest provisional_work binding_tree
  projected-valid v q m =
      let s = projected-shape v q m in let i = projected-id v q m in ground arith

  derived-id :
      is_valid_state state ≡ true
      → queued_candidates state ≡ current ∷ []
      → origin_matches origin current ≡ true
      → (origin_is_valid origin state.sequence ≡ true)
        × (derive_work_id state.session_id origin current.trigger ≡ ok current.work_id)
  unfolding derive_work_id origin_is_valid origin_matches valid_current_work
  derived-id v q m =
      let w = queued-valid state current v q in
      let f = fields-valid state v in
      let d = derive-current current state.session_id state.sequence w in
      (ground arith, ground arith)

  derived-queued :
      is_valid_state state ≡ true
      → queued_candidates state ≡ current ∷ []
      → origin_matches origin current ≡ true
      → derive_queued state (some origin) current ≡ ok projected
  unfolding derive_queued provisional_work binding_tree work_binding_digest
  derived-queued v q m =
      let p1 = projected-valid v q m in let (o, d) = derived-id v q m in ground arith

  -- In a valid open snapshot that waits for the Host and has one queued work item, the origin of that
  -- item gives a work: it passes its own validation, and it has the id of the item and the sequence of
  -- the snapshot.
  pub derive_runnable_work_total :
      is_valid_state state ≡ true
      → state.lifecycle ≡ SessionLifecycle.opened
      → state.phase ≡ ConversationPhase.waiting_host
      → queued_candidates state ≡ current ∷ []
      → origin_matches origin current ≡ true
      → (work : RunnableWork) × (derive_runnable_work state (some origin) ≡ ok (some work))
        × (validate_runnable_work work ≡ ok work)
        × (work.work_id ≡ current.work_id)
        × (work.observed_sequence ≡ state.sequence)
  unfolding derive_runnable_work derive_waiting provisional_work
  derive_runnable_work_total v l p q m =
      let d = derived-queued v q m in
      let w : derive_waiting state (some origin) ≡ ok (some projected) =
        rw (q, derive_waiting) (ground arith) in
      (projected, ground arith, projected-valid v q m, refl, refl)
