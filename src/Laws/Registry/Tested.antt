-- ===== src/Laws/Registry/Tested.antt =====
-- The tests of `validate_transaction` of xsync_v2/registry.py on a transaction that is no replay.
use x_sync.Prelude.{
  List, String, String-eq, all, any, arith, false, has, is_distinct, leb, length, none, ok, true,
  ◌&&◌, ◌+◌, ◌∷◌, ◌≡◌,
}
use x_sync.Registry.Decide.{receipt_for_command}
use x_sync.Registry.Events.{CommittedRegistryEvent, CommittedRegistryTransaction}
use x_sync.Registry.Model.{RegistryState}
use x_sync.Registry.Transaction.{
  event_ids_of, is_replay, last_sequence, numbered_from, payloads_of, same_command,
  same_transaction, valid_event_envelope, valid_transaction_shape, validate_events, validate_fresh,
  validate_generations, validate_transaction,
}
use x_sync.Registry.Valid.{receipt_event_ids, valid_registry_state}
use x_sync.Text.{is_protocol_id, is_sha256_digest}

-- The tests that a new transaction has to pass.
pub record Tested (state : RegistryState) (transaction : CommittedRegistryTransaction)
    (first : CommittedRegistryEvent) (rest : List CommittedRegistryEvent) : Type 0 where
  pub headed :
      (is_protocol_id transaction.transaction_id
        && is_sha256_digest transaction.transaction_digest
        && leb 1 (length transaction.events)
        && leb (length transaction.events) 2)
      ≡ true
  pub events_eq : transaction.events ≡ first ∷ rest
  pub enveloped : all valid_event_envelope (first ∷ rest) ≡ true
  pub numbered : numbered_from (state.registry_sequence + 1) (first ∷ rest) ≡ true
  pub one_command : all (same_command first) (first ∷ rest) ≡ true
  pub ids_distinct : is_distinct (event_ids_of (first ∷ rest)) ≡ true
  pub unrecorded : receipt_for_command state.receipts first.command_id ≡ none
  pub new_transaction : any (same_transaction transaction) state.receipts ≡ false
  pub new_ids :
      any
        (λ (event_id : String). has event_id (receipt_event_ids state.receipts))
        (event_ids_of (first ∷ rest))
      ≡ false
  pub generations : validate_generations state (first ∷ rest) ≡ ok tt
  pub shaped :
      valid_transaction_shape state
        (last_sequence first.registry_sequence rest)
        (payloads_of (first ∷ rest))
      ≡ true

Tested-fresh :
    (state : RegistryState) (transaction : CommittedRegistryTransaction)
    (first : CommittedRegistryEvent) (rest : List CommittedRegistryEvent)
    → Tested state transaction first rest
    → validate_fresh state first rest ≡ ok tt
unfolding validate_fresh
Tested-fresh state transaction first rest t = ground (arith, t.new_ids, t.generations, t.shaped)

pub Tested-valid :
    (state : RegistryState) (transaction : CommittedRegistryTransaction)
    (first : CommittedRegistryEvent) (rest : List CommittedRegistryEvent)
    → valid_registry_state state ≡ true
    → Tested state transaction first rest
    → validate_transaction state transaction ≡ ok tt
unfolding validate_transaction validate_events is_replay
Tested-valid state transaction first rest v t = ground (
  arith,
  Tested-fresh state transaction first rest t,
  t.headed,
  t.events_eq,
  t.enveloped,
  t.numbered,
  t.one_command,
  t.ids_distinct,
  t.unrecorded,
  t.new_transaction,
)
