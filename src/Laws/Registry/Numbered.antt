-- ===== src/Laws/Registry/Numbered.antt =====
-- The numbering of an accepted batch in xsync_v2/registry_codec.py against `validate_transaction` of
-- xsync_v2/registry.py.
use x_sync.Prelude.{
  List, String, String-eq, [], all, any, arith, false, has, is_distinct, length, none, ok, refl,
  true, ℕ, ◌+◌, ◌∷◌, ◌≡◌, ◌≤◌,
}
use x_sync.Laws.Registry.Accepted.{
  Batch, Fits, decide_command-Batch, decide_registry-fresh, pending_of,
}
use x_sync.Laws.Registry.Tested.{Tested, Tested-valid}
use x_sync.Registry.Build.{
  RegistryDigests, committed_registry_event, committed_registry_events,
  committed_registry_transaction, draft_event, draft_transaction,
}
use x_sync.Registry.Decide.{
  decide_registry, receipt_for_command, registry_command_id, valid_command,
}
use x_sync.Registry.Events.{
  CommittedRegistryEvent, CommittedRegistryTransaction, PendingRegistryEvent, RegistryCommand,
  RegistryEventPayload, registry_accepted,
}
use x_sync.Registry.Model.{RegistryState}
use x_sync.Registry.Transaction.{
  numbered_from, same_command, same_transaction, valid_event_envelope, valid_transaction_shape,
  validate_event_generation, validate_generations, validate_transaction,
}
use x_sync.Registry.Valid.{receipt_event_ids, valid_registry_state}
use x_sync.Text.{is_protocol_id, is_sha256_digest}

module _ ⦃digests : RegistryDigests⦄
    (events_digested : (event : CommittedRegistryEvent)
      → is_sha256_digest (digests.digest_of_event event) ≡ true)
    (transactions_digested : (transaction : CommittedRegistryTransaction)
      → is_sha256_digest (digests.digest_of_transaction transaction) ≡ true)
    (state : RegistryState) (command : RegistryCommand) where
  Fits-generation :
      (sequence : ℕ) (event_id : String) (p : RegistryEventPayload)
      → Fits state p
      → validate_event_generation state
          (committed_registry_event state sequence event_id (pending_of command p))
        ≡ ok tt
  unfolding validate_event_generation committed_registry_event draft_event
  Fits-generation sequence event_id p (valid, g) = ground arith

  Fits-envelope :
      (sequence : ℕ) (event_id : String) (p : RegistryEventPayload)
      → Fits state p
      → valid_command command ≡ true
      → is_protocol_id event_id ≡ true
      → 1 ≤ sequence
      → valid_event_envelope
          (committed_registry_event state sequence event_id (pending_of command p))
        ≡ true
  unfolding valid_event_envelope committed_registry_event draft_event valid_command
  Fits-envelope sequence event_id p (valid, g) w i o =
      let d = events_digested (draft_event state sequence event_id (pending_of command p)) in
      ground arith

  module _ (transaction_id : String) (i : is_protocol_id transaction_id ≡ true)
      (w : valid_command command ≡ true)
      (n : receipt_for_command state.receipts (registry_command_id command) ≡ none) where
    one-Tested :
        (p : RegistryEventPayload) (a : String)
        → Fits state p
        → valid_transaction_shape state (state.registry_sequence + 1) (p ∷ []) ≡ true
        → is_protocol_id a ≡ true
        → has a (receipt_event_ids state.receipts) ≡ false
        → any
            (same_transaction (
              committed_registry_transaction state
                (pending_of command p ∷ [])
                transaction_id
                (a ∷ [])))
            state.receipts
          ≡ false
        → Tested state
            (committed_registry_transaction state
              (pending_of command p ∷ [])
              transaction_id
              (a ∷ []))
            (committed_registry_event state (state.registry_sequence + 1) a (pending_of command p))
            []
    unfolding committed_registry_transaction draft_transaction committed_registry_events
        committed_registry_event draft_event all any is_distinct has same_command numbered_from
        validate_generations
    one-Tested p a f s ia ha t =
        let e = Fits-envelope (state.registry_sequence + 1) a p f w ia (omega arith) in
        let g = Fits-generation (state.registry_sequence + 1) a p f in
        let d = transactions_digested (
          draft_transaction transaction_id (
            committed_registry_events state (state.registry_sequence + 1) (a ∷ [])
              (pending_of command p ∷ []))) in
        record {
          headed = ground arith;
          events_eq = refl;
          enveloped = ground arith;
          numbered = ground arith;
          one_command = ground arith;
          ids_distinct = ground arith;
          unrecorded = n;
          new_transaction = t;
          new_ids = ground arith;
          generations = ground arith;
          shaped = s;
        }

    two-Tested :
        (p q : RegistryEventPayload) (a b : String)
        → Fits state p
        → Fits state q
        → valid_transaction_shape state (state.registry_sequence + 1 + 1) (p ∷ q ∷ []) ≡ true
        → is_protocol_id a ≡ true
        → is_protocol_id b ≡ true
        → ¬ (a ≡ b)
        → has a (receipt_event_ids state.receipts) ≡ false
        → has b (receipt_event_ids state.receipts) ≡ false
        → any
            (same_transaction (
              committed_registry_transaction state
                (pending_of command p ∷ pending_of command q ∷ [])
                transaction_id
                (a ∷ b ∷ [])))
            state.receipts
          ≡ false
        → Tested state
            (committed_registry_transaction state
              (pending_of command p ∷ pending_of command q ∷ [])
              transaction_id
              (a ∷ b ∷ []))
            (committed_registry_event state (state.registry_sequence + 1) a (pending_of command p))
            (committed_registry_event state
                (state.registry_sequence + 1 + 1)
                b
                (pending_of command q)
              ∷ [])
    unfolding committed_registry_transaction draft_transaction committed_registry_events
        committed_registry_event draft_event all any is_distinct has same_command numbered_from
        validate_generations
    two-Tested p q a b f1 f2 s ia ib ab ha hb t =
        let e1 = Fits-envelope (state.registry_sequence + 1) a p f1 w ia (omega arith) in
        let e2 = Fits-envelope (state.registry_sequence + 1 + 1) b q f2 w ib (omega arith) in
        let g1 = Fits-generation (state.registry_sequence + 1) a p f1 in
        let g2 = Fits-generation (state.registry_sequence + 1 + 1) b q f2 in
        let d = transactions_digested (
          draft_transaction transaction_id (
            committed_registry_events state (state.registry_sequence + 1) (a ∷ b ∷ [])
              (pending_of command p ∷ pending_of command q ∷ []))) in
        record {
          headed = ground arith;
          events_eq = refl;
          enveloped = ground arith;
          numbered = ground arith;
          one_command = ground arith;
          ids_distinct = ground arith;
          unrecorded = n;
          new_transaction = t;
          new_ids = ground arith;
          generations = ground arith;
          shaped = s;
        }

    Batch-valid :
        (events : List PendingRegistryEvent) (event_ids : List String)
        → valid_registry_state state ≡ true
        → Batch state command events
        → length event_ids ≡ length events
        → all is_protocol_id event_ids ≡ true
        → is_distinct event_ids ≡ true
        → any (λ (event_id : String). has event_id (receipt_event_ids state.receipts)) event_ids
          ≡ false
        → any
            (same_transaction
              (committed_registry_transaction state events transaction_id event_ids))
            state.receipts
          ≡ false
        → validate_transaction state
            (committed_registry_transaction state events transaction_id event_ids)
          ≡ ok tt
    unfolding all any is_distinct has
    Batch-valid _ (a ∷ []) v (Batch.one p f s) l ip id new t =
        Tested-valid state _ _ [] v (one-Tested p a f s (ground arith) (ground arith) t)
    Batch-valid _ (a ∷ b ∷ []) v (Batch.two p q f1 f2 s) l ip id new t =
        Tested-valid state _ _ _ v (
          two-Tested p q a b f1 f2 s (ground arith) (ground arith) (ground arith) (ground arith)
            (ground arith) t)
    Batch-valid _ [] v (Batch.one p f s) l ip id new t = ground arith
    Batch-valid _ (a ∷ b ∷ ids) v (Batch.one p f s) l ip id new t = ground arith
    Batch-valid _ [] v (Batch.two p q f1 f2 s) l ip id new t = ground arith
    Batch-valid _ (a ∷ []) v (Batch.two p q f1 f2 s) l ip id new t = ground arith
    Batch-valid _ (a ∷ b ∷ c ∷ ids) v (Batch.two p q f1 f2 s) l ip id new t = ground arith

  -- The batch of an accepted registry command, numbered from the registry as the codec numbers it,
  -- passes the validation of the transaction when its ids are well formed, distinct and new, and no
  -- receipt has the id or the digest of the transaction. The digests are assumed to be well formed.
  pub decide_registry-validate_transaction :
      (events : List PendingRegistryEvent) (transaction_id : String) (event_ids : List String)
      → decide_registry state command ≡ registry_accepted events
      → is_protocol_id transaction_id ≡ true
      → length event_ids ≡ length events
      → all is_protocol_id event_ids ≡ true
      → is_distinct event_ids ≡ true
      → any (λ (event_id : String). has event_id (receipt_event_ids state.receipts)) event_ids
        ≡ false
      → any
          (same_transaction (committed_registry_transaction state events transaction_id event_ids))
          state.receipts
        ≡ false
      → validate_transaction state
          (committed_registry_transaction state events transaction_id event_ids)
        ≡ ok tt
  decide_registry-validate_transaction events transaction_id event_ids d i l ip id new t =
      let (v, w, n, c) = decide_registry-fresh state command events d in
      Batch-valid transaction_id i w n events event_ids v
        (decide_command-Batch state v command events w c) l ip id new t
