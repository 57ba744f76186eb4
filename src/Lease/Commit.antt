-- ===== src/Lease/Commit.antt =====
-- `_replay_receipt` and `_commit` of xsync_v2/lease_store.py. The directory of a work is the list of
-- its transactions, and a write fails where the file of that sequence is already there.
use x_sync.Prelude.{
  Error, List, Option, Result, String, String-eq, [], err, false, guard, if◌then◌else◌, length, ltb,
  none, ok, raise_any, some, true, ℕ, ◌!=◌, ◌++◌, ◌+◌, ◌==◌, ◌>>=◌, ◌>>◌, ◌∷◌,
}
use x_sync.Identity.{Sha256}
use x_sync.Lease.Clock.{Calls, LeaseHost, now, verify_runtime}
use x_sync.Lease.Encode.{LeaseDigests, encode_transaction, transaction_hash_of, transaction_tree}
use x_sync.Lease.History.{valid_history}
use x_sync.Lease.Model.{
  LeaseMutationOutcome, LeaseRecord, LeaseRequest, LeaseTransaction, RuntimeAuthorityCheck,
}
use x_sync.Lease.Terms.{
  assert_commit_clock, last_transaction, lease_at_commit, operation_of, request_id_of,
}
use x_sync.Session.{link_error}
use x_sync.Work.{RunnableWork}

unfoldable pub receipt_of_request : List LeaseTransaction → String → Option LeaseTransaction
receipt_of_request [] request_id = none
receipt_of_request (item ∷ items) request_id =
    if item.request_id == request_id then some item else receipt_of_request items request_id

-- The receipt of a request that the history has.
unfoldable pub replay_of : LeaseTransaction → String → Result LeaseMutationOutcome
replay_of receipt request_digest =
    if receipt.request_digest != request_digest
    then err Error.idempotency_conflict
    else ok (record { operation = receipt.operation; lease = receipt.lease; replayed = true })

-- `_replay_receipt` on the history that it has read.
unfoldable pub replay_receipt :
    List LeaseTransaction → String → String → Result (Option LeaseMutationOutcome)
replay_receipt history request_id request_digest = elim (receipt_of_request history request_id) [
  | none ↦ ok none
  | some receipt ↦ replay_of receipt request_digest >>= λ outcome. ok (some outcome)
]

-- The branch of `IMMUTABLE_EXISTS`: another store has written the transaction of this sequence.
unfoldable pub concurrent_receipt :
    List LeaseTransaction → String → String → Result LeaseMutationOutcome
concurrent_receipt concurrent request_id request_digest =
    elim (receipt_of_request concurrent request_id) [
      | none ↦ err Error.lease_concurrent_modification
      | some receipt ↦ replay_of receipt request_digest
    ]

-- What a mutation returns, with the transactions of the work and the calls behind it.
pub record Committed : Type 0 where
  pub outcome : LeaseMutationOutcome
  pub transactions : List LeaseTransaction
  pub calls : Calls

module _ ⦃digests : LeaseDigests⦄ where
  unfoldable pub provisional_transaction :
      List LeaseTransaction → RunnableWork → LeaseRequest → ℕ → LeaseRecord → LeaseTransaction
  provisional_transaction history work request time lease = record {
    transaction_sequence = length history + 1;
    operation = operation_of request;
    request_id = request_id_of request;
    request_digest = digests.digest_of_request (operation_of request) request;
    request = request;
    recorded_at = time;
    previous_transaction_hash = elim (last_transaction history) [
      | none ↦ none
      | some last ↦ some last.transaction_hash
    ];
    work = work;
    lease = lease;
    transaction_hash = "sha256:0000000000000000000000000000000000000000000000000000000000000000";
  }

  unfoldable pub committed_transaction :
      List LeaseTransaction → RunnableWork → LeaseRequest → ℕ → LeaseRecord → LeaseTransaction
  committed_transaction history work request time lease =
      let provisional = provisional_transaction history work request time lease in
      record provisional { transaction_hash = transaction_hash_of provisional }

  -- The hard link: it fails where the directory has the file already, and with another error.
  unfoldable pub publish :
      List LeaseTransaction
      → List LeaseTransaction
      → LeaseTransaction
      → Calls
      → Option Error
      → Result Committed
  publish history durable transaction calls link_error =
      if ltb (length history) (length durable)
      then concurrent_receipt durable transaction.request_id transaction.request_digest
        >>= (λ outcome. ok (record { outcome = outcome; transactions = durable; calls = calls }))
      else raise_any link_error
        >> ok (record {
          outcome = record {
            operation = transaction.operation;
            lease = transaction.lease;
            replayed = false;
          };
          transactions = durable ++ transaction ∷ [];
          calls = calls;
        })

module _ ⦃h : Sha256⦄ ⦃digests : LeaseDigests⦄ where
  -- `_commit` on the history that was read, and on the transactions that are durable when the file
  -- is linked.
  unfoldable pub commit :
      LeaseHost
      → List LeaseTransaction
      → List LeaseTransaction
      → RunnableWork
      → LeaseRequest
      → RuntimeAuthorityCheck
      → Calls
      → Result Committed
  commit host history durable work request runtime_check calls = do
    raise_any (host.open_transaction_directory calls.count)
    raise_any (host.assert_authority calls.count)
    verified ← verify_runtime host runtime_check calls
    recorded ← now host verified
    lease ← lease_at_commit host (last_transaction history) work request recorded.value
    transaction_tree (provisional_transaction history work request recorded.value lease)
    let transaction = committed_transaction history work request recorded.value lease
    guard (valid_history (history ++ transaction ∷ [])) Error.lease_history_invalid
    encoded ← encode_transaction transaction
    raise_any (host.write_temporary recorded.calls.count)
    raise_any (host.assert_authority recorded.calls.count)
    guarded ← verify_runtime host runtime_check recorded.calls
    boundary ← now host guarded
    assert_commit_clock (operation_of request) (last_transaction history) lease boundary.value
    publish history durable encoded boundary.calls (host.link boundary.calls.count)
