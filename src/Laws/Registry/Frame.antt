-- ===== src/Laws/Registry/Frame.antt =====
-- What a transaction that `reduce` of xsync_v2/registry.py accepts has passed, and what it moves.
use x_sync.Prelude.{
  Bool, List, List-cases, Option-cases, Result-cases, String-eq, [], all, arith, false, inl, inr,
  is_distinct, leb, length, none, ok, some, true, ◌&&◌, ◌++◌, ◌+◌, ◌∷◌, ◌≡◌, ◌⊎◌,
}
use x_sync.Registry.Decide.{receipt_for_command}
use x_sync.Registry.Events.{CommittedRegistryEvent, CommittedRegistryTransaction}
use x_sync.Registry.Model.{CommandReceipt, RegistryState}
use x_sync.Registry.Reduce.{apply_events, receipt_of, reduce_events, reduce_registry}
use x_sync.Registry.Transaction.{
  event_ids_of, exact_receipt_match, is_replay, last_sequence, numbered_from, payloads_of,
  same_command, valid_event_envelope, valid_transaction_shape, validate_events, validate_fresh,
  validate_generations, validate_transaction,
}
use x_sync.Registry.Valid.{valid_registry_state}
use x_sync.Text.{is_protocol_id, is_sha256_digest}

-- A transaction that was accepted: what it has passed, in the order of the code.
pub record Passed (state : RegistryState) (transaction : CommittedRegistryTransaction)
    (first : CommittedRegistryEvent) (rest : List CommittedRegistryEvent) : Type 0 where
  pub state_valid : valid_registry_state state ≡ true
  pub headed :
      (is_protocol_id transaction.transaction_id
        && is_sha256_digest transaction.transaction_digest
        && leb 1 (length transaction.events)
        && leb (length transaction.events) 2)
      ≡ true
  pub events_eq : transaction.events ≡ first ∷ rest
  pub enveloped : all valid_event_envelope (first ∷ rest) ≡ true
  pub one_command : all (same_command first) (first ∷ rest) ≡ true
  pub ids_distinct : is_distinct (event_ids_of (first ∷ rest)) ≡ true

-- The transaction is the exact replay of a recorded one.
pub record Replayed (state : RegistryState) (transaction : CommittedRegistryTransaction)
    (first : CommittedRegistryEvent) (rest : List CommittedRegistryEvent) : Type 0 where
  pub receipt : CommandReceipt
  pub recorded : receipt_for_command state.receipts first.command_id ≡ some receipt
  pub same_body : receipt.body_digest ≡ first.body_digest
  pub exact : exact_receipt_match receipt transaction first rest ≡ true

-- The transaction is new: the state that its events give, and the tests of a new one.
pub record Extended (state next_state : RegistryState) (transaction : CommittedRegistryTransaction)
    (first : CommittedRegistryEvent) (rest : List CommittedRegistryEvent) : Type 0 where
  pub unrecorded : receipt_for_command state.receipts first.command_id ≡ none
  pub numbered : numbered_from (state.registry_sequence + 1) (first ∷ rest) ≡ true
  pub generations : validate_generations state (first ∷ rest) ≡ ok tt
  pub shaped :
      valid_transaction_shape state
        (last_sequence first.registry_sequence rest)
        (payloads_of (first ∷ rest))
      ≡ true
  pub reduced : RegistryState
  pub applied : apply_events state (first ∷ rest) ≡ ok reduced
  pub next_eq :
      next_state
      ≡ record reduced { receipts = reduced.receipts ++ receipt_of transaction first rest ∷ [] }
  pub next_valid : valid_registry_state next_state ≡ true

is_replay-cases :
    (state : RegistryState) (transaction : CommittedRegistryTransaction)
    (first : CommittedRegistryEvent) (rest : List CommittedRegistryEvent) (replay : Bool)
    → is_replay state transaction first rest ≡ ok replay
    → ((replay ≡ true) × Replayed state transaction first rest)
      ⊎ ((replay ≡ false) × (receipt_for_command state.receipts first.command_id ≡ none))
unfolding is_replay
is_replay-cases state transaction first rest replay r =
    elim (Option-cases (receipt_for_command state.receipts first.command_id)) [
      | inl n ↦ inr (ground arith, n)
      | inr (receipt, s) ↦ inl (
        ground arith,
        record { receipt = receipt; recorded = s; same_body = ground arith; exact = ground arith },
      )
    ]

-- What `reduce` has done when it returns a state.
abbrev pub Outcome : RegistryState → RegistryState → CommittedRegistryTransaction → Type 0
Outcome state next_state transaction =
    (first : CommittedRegistryEvent) × (rest : List CommittedRegistryEvent) × Passed state
      transaction first rest
    × ((Replayed state transaction first rest × (next_state ≡ state))
        ⊎ Extended state next_state transaction first rest)

validate_events-ok :
    (state : RegistryState) (transaction : CommittedRegistryTransaction)
    (first : CommittedRegistryEvent) (rest : List CommittedRegistryEvent) {u : Unit {0}}
    → validate_events state transaction first rest ≡ ok u
    → (all valid_event_envelope (first ∷ rest) ≡ true)
      × (all (same_command first) (first ∷ rest) ≡ true)
      × (is_distinct (event_ids_of (first ∷ rest)) ≡ true)
      × (Replayed state transaction first rest
          ⊎ ((receipt_for_command state.receipts first.command_id ≡ none)
              × (numbered_from (state.registry_sequence + 1) (first ∷ rest) ≡ true)
              × (validate_fresh state first rest ≡ ok u)))
unfolding validate_events
validate_events-ok state transaction first rest r = (
  ground arith,
  ground arith,
  ground arith,
  elim (Result-cases (is_replay state transaction first rest)) [
    | inl (code, f) ↦ ground arith
    | inr (replay, p) ↦ elim (is_replay-cases state transaction first rest replay p) [
      | inl (t, w) ↦ inl w
      | inr (f, n) ↦ inr (n, ground arith, ground arith)
    ]
  ],
)

reduce_events-Extended :
    (state next_state : RegistryState) (transaction : CommittedRegistryTransaction)
    (first : CommittedRegistryEvent) (rest : List CommittedRegistryEvent)
    → receipt_for_command state.receipts first.command_id ≡ none
    → numbered_from (state.registry_sequence + 1) (first ∷ rest) ≡ true
    → validate_fresh state first rest ≡ ok tt
    → reduce_events state transaction first rest ≡ ok next_state
    → Extended state next_state transaction first rest
unfolding reduce_events validate_fresh
reduce_events-Extended state next_state transaction first rest n m v r =
    elim (Result-cases (apply_events state (first ∷ rest))) [
      | inl (code, f) ↦ ground arith
      | inr (reduced, p) ↦ record {
        unrecorded = n;
        numbered = m;
        generations = ground arith;
        shaped = ground arith;
        reduced = reduced;
        applied = p;
        next_eq = ground arith;
        next_valid = ground arith;
      }
    ]

reduce_registry-events :
    (state next_state : RegistryState) (transaction : CommittedRegistryTransaction)
    → reduce_registry state transaction ≡ ok next_state
    → (first : CommittedRegistryEvent) × (rest : List CommittedRegistryEvent) × (transaction.events
        ≡ first ∷ rest)
unfolding reduce_registry validate_transaction
reduce_registry-events state next_state transaction r = elim (List-cases transaction.events) [
  | inl n ↦ ground arith
  | inr (first, rest, e) ↦ (first, rest, e)
]

reduce_registry-first :
    (state next_state : RegistryState) (transaction : CommittedRegistryTransaction)
    (first : CommittedRegistryEvent) (rest : List CommittedRegistryEvent)
    → transaction.events ≡ first ∷ rest
    → reduce_registry state transaction ≡ ok next_state
    → Passed state transaction first rest
      × ((Replayed state transaction first rest × (next_state ≡ state))
          ⊎ Extended state next_state transaction first rest)
unfolding reduce_registry validate_transaction reduce_events
reduce_registry-first state next_state transaction first rest e r =
    elim (Result-cases (validate_events state transaction first rest)) [
      | inl (code, f) ↦ ground arith
      | inr (done, p) ↦
          let (a, b, c, outcome) = validate_events-ok state transaction first rest p in
          (
            record {
              state_valid = ground arith;
              headed = ground arith;
              events_eq = e;
              enveloped = a;
              one_command = b;
              ids_distinct = c;
            },
            elim outcome [
              | inl w ↦ inl (w, ground (arith, w.recorded))
              | inr (n, m, v) ↦ inr (
                  reduce_events-Extended state next_state transaction first rest n m v
                    (ground arith))
            ],
          )
    ]

pub reduce_registry-Outcome :
    (state next_state : RegistryState) (transaction : CommittedRegistryTransaction)
    → reduce_registry state transaction ≡ ok next_state
    → Outcome state next_state transaction
reduce_registry-Outcome state next_state transaction r =
    let (first, rest, e) = reduce_registry-events state next_state transaction r in
    let (p, o) = reduce_registry-first state next_state transaction first rest e r in
    (first, rest, p, o)
