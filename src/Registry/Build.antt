-- ===== src/Registry/Build.antt =====
-- The numbering of an accepted registry batch: `_payload_generation` and the loop of
-- `build_committed_registry_transaction` of xsync_v2/registry_codec.py.
use x_sync.Prelude.{List, String, [], ℕ, ◌+◌, ◌∷◌}
use x_sync.Registry.Events.{
  CommittedRegistryEvent, CommittedRegistryTransaction, PendingRegistryEvent, RegistryEventPayload,
  deactivation_started, dialogue_activated, dialogue_created, dialogue_deactivated,
}
use x_sync.Registry.Model.{RegistryState}

-- The digests of the canonical JSON texts of an event and of a transaction.
pub record RegistryDigests : Type 0 where
  pub digest_of_event : CommittedRegistryEvent → String
  pub digest_of_transaction : CommittedRegistryTransaction → String

unfoldable pub payload_generation : RegistryState → RegistryEventPayload → ℕ
payload_generation state (dialogue_created p) = state.generation
payload_generation state (deactivation_started p) = p.handoff.generation
payload_generation state (dialogue_deactivated p) = p.proof.generation
payload_generation state (dialogue_activated p) = p.generation

unfoldable pub draft_transaction :
    String → List CommittedRegistryEvent → CommittedRegistryTransaction
draft_transaction transaction_id events = record {
  transaction_id = transaction_id;
  transaction_digest = "";
  events = events;
}

module _ ⦃digests : RegistryDigests⦄ where
  unfoldable pub draft_event :
      RegistryState → ℕ → String → PendingRegistryEvent → CommittedRegistryEvent
  draft_event state sequence event_id item = record {
    event_id = event_id;
    event_digest = "";
    registry_sequence = sequence;
    generation = payload_generation state item.payload;
    command_id = item.command_id;
    body_digest = item.body_digest;
    payload = item.payload;
  }

  unfoldable pub committed_registry_event :
      RegistryState → ℕ → String → PendingRegistryEvent → CommittedRegistryEvent
  committed_registry_event state sequence event_id item =
      let draft = draft_event state sequence event_id item in
      record draft { event_digest = digests.digest_of_event draft }

  -- The loop over the ids and the events, from this sequence; the two have the same length.
  unfoldable pub committed_registry_events :
      RegistryState → ℕ → List String → List PendingRegistryEvent → List CommittedRegistryEvent
  committed_registry_events state sequence [] items = []
  committed_registry_events state sequence (event_id ∷ event_ids) [] = []
  committed_registry_events state sequence (event_id ∷ event_ids) (item ∷ items) =
      committed_registry_event state sequence event_id item
      ∷ committed_registry_events state (sequence + 1) event_ids items

  unfoldable pub committed_registry_transaction :
      RegistryState
      → List PendingRegistryEvent
      → String
      → List String
      → CommittedRegistryTransaction
  committed_registry_transaction state events transaction_id event_ids =
      let draft =
        draft_transaction transaction_id
          (committed_registry_events state (state.registry_sequence + 1) event_ids events) in
      record draft { transaction_digest = digests.digest_of_transaction draft }
