-- ===== src/Laws/Registry/Counters.antt =====
-- The sequence, the generation and the receipts of the registry under `reduce` of
-- xsync_v2/registry.py.
use x_sync.Prelude.{
  List, [], ap, arith, count, inl, inr, length, ok, true, ℕ, ◌++◌, ◌+◌, ◌∙◌, ◌∷◌, ◌≡◌, ◌≤◌, ◌⊎◌,
}
use x_sync.Laws.Registry.Frame.{Extended, reduce_registry-Outcome}
use x_sync.Laws.Registry.Shapes.{Form, valid_transaction_shape-Form}
use x_sync.Registry.Events.{CommittedRegistryEvent, CommittedRegistryTransaction}
use x_sync.Registry.Model.{CommandReceipt, RegistryState}
use x_sync.Registry.Reduce.{
  apply_activated, apply_deactivated, apply_event, apply_events, apply_started, receipt_of,
  reduce_registry,
}
use x_sync.Registry.Transaction.{
  expected_event_generation, numbered_from, validate_event_generation, validate_generations,
}
use x_sync.Registry.Valid.{valid_registry_state}

-- A registry before and after so many events.
abbrev pub Moved : RegistryState → RegistryState → ℕ → Type 0
Moved state next_state count =
    (next_state.registry_id ≡ state.registry_id)
    × (next_state.registry_sequence ≡ state.registry_sequence + count)
    × (state.generation ≤ next_state.generation)
    × (next_state.generation ≤ state.generation + 1)

apply_events-Form :
    (state reduced : RegistryState) (last : ℕ) (first : CommittedRegistryEvent)
    (rest : List CommittedRegistryEvent)
    → Form state last first rest
    → numbered_from (state.registry_sequence + 1) (first ∷ rest) ≡ true
    → validate_generations state (first ∷ rest) ≡ ok tt
    → apply_events state (first ∷ rest) ≡ ok reduced
    → Moved state reduced (length (first ∷ rest)) × (reduced.receipts ≡ state.receipts)
unfolding numbered_from validate_generations validate_event_generation expected_event_generation
    apply_events apply_event apply_started apply_deactivated apply_activated
apply_events-Form state reduced last _ _ (Form.create first second c a e f s) n g r = ground arith
apply_events-Form state reduced last _ _ (Form.create_and_begin first second c d e f s) n g r =
    ground arith
apply_events-Form state reduced last _ _ (Form.begin first d e s) n g r = ground arith
apply_events-Form state reduced last _ _ (Form.complete first second d a e f s) n g r = ground arith

module _ (state next_state : RegistryState) (transaction : CommittedRegistryTransaction) where
  Extended-reduced :
      (first : CommittedRegistryEvent) (rest : List CommittedRegistryEvent)
      (x : Extended state next_state transaction first rest)
      → Moved state x.reduced (length (first ∷ rest)) × (x.reduced.receipts ≡ state.receipts)
  Extended-reduced first rest x =
      apply_events-Form state x.reduced _ first rest
        (valid_transaction_shape-Form state _ first rest x.shaped) x.numbered x.generations
        x.applied

  pub Extended-receipts :
      (first : CommittedRegistryEvent) (rest : List CommittedRegistryEvent)
      → Extended state next_state transaction first rest
      → next_state.receipts ≡ state.receipts ++ receipt_of transaction first rest ∷ []
  Extended-receipts first rest x =
      ap (λ s. s.receipts) x.next_eq
      ∙ ap (λ receipts. receipts ++ receipt_of transaction first rest ∷ [])
          (Extended-reduced first rest x).1

  Extended-Moved :
      (first : CommittedRegistryEvent) (rest : List CommittedRegistryEvent)
      → transaction.events ≡ first ∷ rest
      → Extended state next_state transaction first rest
      → Moved state next_state (length transaction.events)
  Extended-Moved first rest e x = rw x.next_eq (rw e (Extended-reduced first rest x).0)

  -- A transaction leaves the registry as it is or moves it: the sequence by the number of its
  -- events, the generation by at most one and never back, and one receipt comes behind the recorded
  -- ones. The registry keeps its id and is valid.
  pub reduce_registry_counters :
      reduce_registry state transaction ≡ ok next_state
      → (valid_registry_state next_state ≡ true)
        × ((next_state ≡ state)
            ⊎ (Moved state next_state (length transaction.events)
                × ((receipt : CommandReceipt) × (next_state.receipts
                      ≡ state.receipts ++ receipt ∷ []))))
  reduce_registry_counters r =
      let (first, rest, p, outcome) = reduce_registry-Outcome state next_state transaction r in
      elim outcome [
        | inl (w, same) ↦ (rw same p.state_valid, inl same)
        | inr x ↦ (
          x.next_valid,
          inr (
            Extended-Moved first rest p.events_eq x,
            (receipt_of transaction first rest, Extended-receipts first rest x),
          ),
        )
      ]
