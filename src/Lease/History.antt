-- ===== src/Lease/History.antt =====
-- `_validate_history` of xsync_v2/lease_store.py, and the tests of its loop.
use x_sync.Prelude.{
  Bool, List, Option-eq, String, String-eq, [], false, has, if◌then◌else◌, is_none, leb, ltb, not,
  some, true, ℕ, ℕ-eq, ◌!=◌, ◌&&◌, ◌+◌, ◌==◌, ◌||◌, ◌∷◌,
}
use x_sync.Lease.Model.{
  LeaseOperation, LeaseOperation-eq, LeaseRecord, LeaseRequest, LeaseTransaction, claim_request,
  reclaim_request, renew_request,
}
use x_sync.Lease.Requests.{max_reclaims_per_work, max_renewals_per_tenure, same_claim}

abbrev pub request_session_id : LeaseRequest → String
request_session_id (claim_request r) = r.session_id
request_session_id (renew_request r) = r.session_id
request_session_id (reclaim_request r) = r.session_id

abbrev pub request_work_id : LeaseRequest → String
request_work_id (claim_request r) = r.work_id
request_work_id (renew_request r) = r.work_id
request_work_id (reclaim_request r) = r.work_id

abbrev pub request_claim_id : LeaseRequest → String
request_claim_id (claim_request r) = r.claim_id
request_claim_id (renew_request r) = r.claim_id
request_claim_id (reclaim_request r) = r.claim_id

abbrev pub request_owner_id : LeaseRequest → String
request_owner_id (claim_request r) = r.owner_id
request_owner_id (renew_request r) = r.owner_id
request_owner_id (reclaim_request r) = r.owner_id

abbrev pub minimum : ℕ → ℕ → ℕ
minimum a b = if leb a b then a else b

-- What the loop keeps: the sets of ids, the counts, and the transaction before.
pub record HistoryLoop : Type 0 where
  pub request_ids : List String
  pub claim_ids : List String
  pub owner_ids : List String
  pub renewals_in_tenure : ℕ
  pub reclaim_count : ℕ
  pub previous : LeaseTransaction

-- The first group of tests, which every transaction passes.
unfoldable pub valid_identity : ℕ → List String → LeaseTransaction → Bool
valid_identity index request_ids transaction =
    (transaction.transaction_sequence == index)
    && (transaction.lease.lease_version == index)
    && not (has transaction.request_id request_ids)
    && (transaction.lease.session_id == transaction.work.session_id)
    && (transaction.lease.work_id == transaction.work.work_id)
    && (transaction.lease.binding_digest == transaction.work.binding_digest)
    && (transaction.lease.registry_generation == transaction.work.registry_generation)
    && (request_session_id transaction.request == transaction.lease.session_id)
    && (request_work_id transaction.request == transaction.lease.work_id)
    && (request_claim_id transaction.request == transaction.lease.claim_id)
    && (request_owner_id transaction.request == transaction.lease.owner_id)

-- A lease that is acquired at this time, for these durations.
unfoldable pub acquired_for : LeaseTransaction → ℕ → ℕ → Bool
acquired_for transaction lease_seconds tenure_seconds =
    (transaction.lease.acquired_at == transaction.recorded_at)
    && (transaction.lease.renewed_at == transaction.recorded_at)
    && (transaction.lease.expires_at == transaction.recorded_at + lease_seconds)
    && (transaction.lease.absolute_expires_at == transaction.recorded_at + tenure_seconds)

unfoldable pub valid_claim : LeaseTransaction → LeaseRequest → Bool
valid_claim transaction (claim_request r) =
    (transaction.operation == LeaseOperation.claim)
    && is_none transaction.previous_transaction_hash
    && acquired_for transaction r.lease_seconds r.max_tenure_seconds
valid_claim transaction (renew_request r) = false
valid_claim transaction (reclaim_request r) = false

-- The tests of a transaction against the one before.
unfoldable pub valid_link : LeaseTransaction → LeaseTransaction → Bool
valid_link previous transaction =
    (transaction.previous_transaction_hash == some previous.transaction_hash)
    && (transaction.work.binding_digest == previous.work.binding_digest)
    && leb previous.work.observed_sequence transaction.work.observed_sequence
    && (leb previous.recorded_at transaction.recorded_at
        || ((transaction.operation == LeaseOperation.reclaim)
            && (transaction.lease.runtime_epoch != previous.lease.runtime_epoch)))

unfoldable pub valid_renewal : LeaseRecord → LeaseTransaction → LeaseRequest → Bool
valid_renewal previous transaction (renew_request r) =
    same_claim previous transaction.lease
    && (r.expected_lease_version == previous.lease_version)
    && ltb transaction.recorded_at previous.expires_at
    && ltb transaction.recorded_at previous.absolute_expires_at
    && (transaction.lease.renewed_at == transaction.recorded_at)
    && ltb transaction.recorded_at transaction.lease.expires_at
    && ltb previous.expires_at transaction.lease.expires_at
    && leb transaction.lease.expires_at transaction.lease.absolute_expires_at
    && (transaction.lease.expires_at
        == minimum (transaction.recorded_at + r.lease_seconds)
            transaction.lease.absolute_expires_at)
valid_renewal previous transaction (claim_request r) = false
valid_renewal previous transaction (reclaim_request r) = false

unfoldable pub valid_reclaim : HistoryLoop → LeaseTransaction → LeaseRequest → Bool
valid_reclaim loop transaction (reclaim_request r) =
    not (has transaction.lease.claim_id loop.claim_ids)
    && not (has transaction.lease.owner_id loop.owner_ids)
    && acquired_for transaction r.lease_seconds r.max_tenure_seconds
    && (leb loop.previous.lease.expires_at transaction.recorded_at
        || (transaction.lease.runtime_epoch != loop.previous.lease.runtime_epoch))
valid_reclaim loop transaction (claim_request r) = false
valid_reclaim loop transaction (renew_request r) = false

-- The tests of one operation behind the first transaction.
unfoldable pub valid_operation : HistoryLoop → LeaseTransaction → LeaseOperation → Bool
valid_operation loop transaction LeaseOperation.claim = false
valid_operation loop transaction LeaseOperation.renew =
    leb (loop.renewals_in_tenure + 1) max_renewals_per_tenure
    && valid_renewal loop.previous.lease transaction transaction.request
valid_operation loop transaction LeaseOperation.reclaim =
    leb (loop.reclaim_count + 1) max_reclaims_per_work
    && valid_reclaim loop transaction transaction.request

unfoldable pub next_loop : HistoryLoop → LeaseTransaction → LeaseOperation → HistoryLoop
next_loop loop transaction LeaseOperation.reclaim = record {
  request_ids = transaction.request_id ∷ loop.request_ids;
  claim_ids = transaction.lease.claim_id ∷ loop.claim_ids;
  owner_ids = transaction.lease.owner_id ∷ loop.owner_ids;
  renewals_in_tenure = 0;
  reclaim_count = loop.reclaim_count + 1;
  previous = transaction;
}
next_loop loop transaction LeaseOperation.renew = record loop {
  request_ids = transaction.request_id ∷ loop.request_ids;
  renewals_in_tenure = loop.renewals_in_tenure + 1;
  previous = transaction;
}
next_loop loop transaction LeaseOperation.claim = record loop {
  request_ids = transaction.request_id ∷ loop.request_ids;
  previous = transaction;
}

-- The loop from the transaction at this index.
unfoldable pub valid_from : ℕ → HistoryLoop → List LeaseTransaction → Bool
valid_from index loop [] = true
valid_from index loop (transaction ∷ transactions) =
    valid_identity index loop.request_ids transaction
    && valid_link loop.previous transaction
    && valid_operation loop transaction transaction.operation
    && valid_from (index + 1) (next_loop loop transaction transaction.operation) transactions

abbrev pub first_loop : LeaseTransaction → HistoryLoop
first_loop transaction = record {
  request_ids = transaction.request_id ∷ [];
  claim_ids = transaction.lease.claim_id ∷ [];
  owner_ids = transaction.lease.owner_id ∷ [];
  renewals_in_tenure = 0;
  reclaim_count = 0;
  previous = transaction;
}

-- `_validate_history` raises `LEASE_HISTORY_INVALID` exactly where this is false.
unfoldable pub valid_history : List LeaseTransaction → Bool
valid_history [] = true
valid_history (transaction ∷ transactions) =
    valid_identity 1 [] transaction
    && valid_claim transaction transaction.request
    && valid_from 2 (first_loop transaction) transactions
