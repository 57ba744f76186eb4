-- ===== src/Laws/Registry/Replay.antt =====
-- Repeated deliveries: a recorded transaction of xsync_v2/registry.py that `reduce` sees again, and a
-- recorded command that `decide` sees again.
use x_sync.Prelude.{
  List, String, String-eq, [], arith, if◌then◌else◌, inl, inr, none, ok, refl, some, sym, true,
  ◌++◌, ◌==◌, ◌∙◌, ◌∷◌, ◌≡◌,
}
use x_sync.Domain.{command_id}
use x_sync.Laws.Registry.Counters.{Extended-receipts}
use x_sync.Laws.Registry.Frame.{Extended, Passed, Replayed, reduce_registry-Outcome}
use x_sync.Registry.Decide.{
  body_digest, decide_registry, decide_seen, receipt_for_command, registry_command_id,
  valid_command,
}
use x_sync.Registry.Events.{
  CommittedRegistryEvent, CommittedRegistryTransaction, RegistryCode, RegistryCommand,
  registry_idempotent, registry_rejected,
}
use x_sync.Registry.Model.{CommandReceipt, RegistryState}
use x_sync.Registry.Reduce.{receipt_of, reduce_events, reduce_registry}
use x_sync.Registry.Transaction.{
  event_ids_of, exact_receipt_match, is_replay, validate_events, validate_transaction,
}

receipt_for_command-append :
    (receipts : List CommandReceipt) (receipt : CommandReceipt) (command_id : String)
    → receipt_for_command receipts command_id ≡ none
    → receipt.command_id ≡ command_id
    → receipt_for_command (receipts ++ receipt ∷ []) command_id ≡ some receipt
unfolding receipt_for_command
receipt_for_command-append [] receipt command_id n e = ground arith
receipt_for_command-append (item ∷ items) receipt command_id n e =
    ground (arith, receipt_for_command-append items receipt command_id)

replayed :
    (state : RegistryState) (transaction : CommittedRegistryTransaction)
    (first : CommittedRegistryEvent) (rest : List CommittedRegistryEvent)
    → Passed state transaction first rest
    → Replayed state transaction first rest
    → reduce_registry state transaction ≡ ok state
unfolding reduce_registry reduce_events validate_transaction validate_events is_replay
replayed state transaction first rest p w = ground (
  arith, p.state_valid, p.headed, p.events_eq, p.enveloped, p.one_command, p.ids_distinct,
  w.recorded, w.same_body, w.exact,
)

module _ (state next_state : RegistryState) (transaction : CommittedRegistryTransaction) where
  Extended-recorded :
      (first : CommittedRegistryEvent) (rest : List CommittedRegistryEvent)
      → Extended state next_state transaction first rest
      → Replayed next_state transaction first rest
  unfolding exact_receipt_match
  Extended-recorded first rest x = record {
    receipt = receipt_of transaction first rest;
    recorded = rw (Extended-receipts state next_state transaction first rest x) (
        receipt_for_command-append state.receipts (receipt_of transaction first rest)
          first.command_id x.unrecorded refl);
    same_body = refl;
    exact = ground arith;
  }

  -- What the registry knows about a transaction that it has accepted.
  reduce_registry-recorded :
      reduce_registry state transaction ≡ ok next_state
      → (first : CommittedRegistryEvent) × (rest : List CommittedRegistryEvent) × Passed next_state
          transaction first rest
        × Replayed next_state transaction first rest
  reduce_registry-recorded r =
      let (first, rest, p, outcome) = reduce_registry-Outcome state next_state transaction r in
      (
        first,
        rest,
        record {
          state_valid = elim outcome [
            | inl (w, same) ↦ rw same p.state_valid
            | inr x ↦ x.next_valid
          ];
          headed = p.headed;
          events_eq = p.events_eq;
          enveloped = p.enveloped;
          one_command = p.one_command;
          ids_distinct = p.ids_distinct;
        },
        elim outcome [ inl (w, same) ↦ rw same w | inr x ↦ Extended-recorded first rest x ],
      )

  -- A transaction that the registry has accepted may be delivered again: the registry accepts it and
  -- does not change.
  pub reduce_registry_again :
      reduce_registry state transaction ≡ ok next_state
      → reduce_registry next_state transaction ≡ ok next_state
  reduce_registry_again r =
      let (first, rest, p, w) = reduce_registry-recorded r in
      replayed next_state transaction first rest p w

  -- When the events of an accepted transaction carry the id of a valid command, the command decided
  -- again is idempotent with the receipt of that transaction if its body has the recorded digest, and
  -- in conflict otherwise.
  pub decide_registry_again :
      (command : RegistryCommand) (first : CommittedRegistryEvent)
      (rest : List CommittedRegistryEvent)
      → transaction.events ≡ first ∷ rest
      → first.command_id ≡ registry_command_id command
      → valid_command command ≡ true
      → reduce_registry state transaction ≡ ok next_state
      → (receipt : CommandReceipt) × (receipt.transaction_id ≡ transaction.transaction_id)
        × (receipt.event_ids ≡ event_ids_of (first ∷ rest))
        × (decide_registry next_state command ≡ (
            if first.body_digest == body_digest command
            then registry_idempotent receipt
            else registry_rejected RegistryCode.idempotency_conflict))
  unfolding decide_registry decide_seen exact_receipt_match
  decide_registry_again command first rest e i v r =
      let (head, tail, p, w) = reduce_registry-recorded r in
      let q = p.state_valid in
      let b = w.same_body in
      let x = w.exact in
      let c = w.recorded in
      let same = sym e ∙ p.events_eq in (w.receipt, ground arith, ground arith, ground arith)
