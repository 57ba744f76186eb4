-- ===== src/Lease/Encode.antt =====
-- `_transaction_tree`, `_encode_transaction` and `_decode_transaction` of xsync_v2/lease_store.py. The
-- bytes of a transaction are taken with it: `json.loads` gives back the tree that was dumped.
use x_sync.Prelude.{
  Bool, Error, List, Result, String, String-eq, err, guard, leb, ok, ℕ, ◌&&◌, ◌==◌, ◌>>=◌, ◌>>◌,
}
use x_sync.Identity.{Sha256}
use x_sync.Lease.Model.{
  LeaseOperation, LeaseRequest, LeaseTransaction, claim_request, reclaim_request, renew_request,
}
use x_sync.Lease.Requests.{
  valid_claim_request, valid_lease, valid_reclaim_request, valid_renew_request,
}
use x_sync.Lease.Terms.{request_id_of}
use x_sync.Text.{is_optional_sha256_digest, is_protocol_id, is_sha256_digest}
use x_sync.Work.{RunnableWork, validate_runnable_work}

-- The hashes of canonical JSON texts of the store, and the number of bytes of such a text. The text
-- that is hashed has no `transaction_hash`.
pub record LeaseDigests : Type 0 where
  pub digest_of_request : LeaseOperation → LeaseRequest → String
  pub hash_of_transaction : LeaseTransaction → String
  pub size_of_transaction : LeaseTransaction → ℕ
  pub digest_of_history : List LeaseTransaction → String

abbrev pub max_transaction_bytes : ℕ
max_transaction_bytes = 65536

-- The tests of `_request_tree` and of `_decode_request`.
unfoldable pub check_request : LeaseRequest → Result (Unit {0})
check_request (claim_request r) = guard (valid_claim_request r) Error.invalid_claim_request
check_request (renew_request r) = guard (valid_renew_request r) Error.invalid_renew_request
check_request (reclaim_request r) = guard (valid_reclaim_request r) Error.invalid_reclaim_request

module _ ⦃h : Sha256⦄ where
  -- What `_transaction_tree` raises: it validates the request, the work and the lease.
  unfoldable pub transaction_tree : LeaseTransaction → Result (Unit {0})
  transaction_tree transaction = do
    check_request transaction.request
    work ← validate_runnable_work transaction.work
    guard (valid_lease transaction.lease) Error.lease_record_invalid

  unfoldable pub decode_work : RunnableWork → Result RunnableWork
  decode_work work = elim (validate_runnable_work work) [
    | err code ↦ err Error.lease_record_invalid
    | ok item ↦ ok item
  ]

module _ ⦃digests : LeaseDigests⦄ where
  unfoldable pub transaction_hash_of : LeaseTransaction → String
  transaction_hash_of transaction =
      digests.hash_of_transaction (record transaction { transaction_hash = "" })

  -- The last group of tests of `_decode_transaction`.
  unfoldable pub valid_transaction_record : LeaseTransaction → Bool
  valid_transaction_record transaction =
      leb 1 transaction.transaction_sequence
      && is_protocol_id transaction.request_id
      && is_sha256_digest transaction.request_digest
      && (transaction.request_id == request_id_of transaction.request)
      && (transaction.request_digest
          == digests.digest_of_request transaction.operation transaction.request)
      && is_optional_sha256_digest transaction.previous_transaction_hash
      && is_sha256_digest transaction.transaction_hash
      && (transaction_hash_of transaction == transaction.transaction_hash)

module _ ⦃h : Sha256⦄ ⦃digests : LeaseDigests⦄ where
  -- `_decode_transaction` of the bytes of a transaction: its tree is canonical.
  unfoldable pub decode_transaction : LeaseTransaction → Result LeaseTransaction
  decode_transaction transaction = do
    check_request transaction.request
    work ← decode_work transaction.work
    guard (valid_lease transaction.lease) Error.lease_record_invalid
    guard (valid_transaction_record transaction) Error.lease_record_invalid
    ok transaction

  -- What is decoded is the transaction, so the last comparison of `_encode_transaction` holds.
  unfoldable pub encode_transaction : LeaseTransaction → Result LeaseTransaction
  encode_transaction transaction = do
    transaction_tree transaction
    guard (transaction_hash_of transaction == transaction.transaction_hash)
        Error.lease_record_invalid
    guard (leb (digests.size_of_transaction transaction) max_transaction_bytes)
        Error.lease_record_too_large
    decode_transaction transaction
