-- ===== src/Laws/Lease/Claim.antt =====
-- The first claim of a work in xsync_v2/lease_store.py goes through.
use x_sync.Prelude.{
  [], ap, arith, false, has, length, ltb, none, ok, refl, some, true, when, ℕ, ◌+◌, ◌<◌, ◌∙◌, ◌∷◌,
  ◌≡◌, ◌≤◌,
}
use x_sync.Identity.{Sha256}
use x_sync.Laws.Lease.Loaded.{WorkOf, load_current_work-WorkOf}
use x_sync.Lease.Clock.{Calls, LeaseHost, accept_runtime, called, now, read_value, verify_runtime}
use x_sync.Lease.Commit.{
  Committed, commit, committed_transaction, provisional_transaction, publish, receipt_of_request,
  replay_receipt,
}
use x_sync.Lease.Current.{load_current_work}
use x_sync.Lease.Encode.{
  LeaseDigests, check_request, decode_transaction, decode_work, encode_transaction,
  transaction_hash_of, transaction_tree, valid_transaction_record,
}
use x_sync.Lease.History.{acquired_for, valid_claim, valid_from, valid_history, valid_identity}
use x_sync.Lease.Model.{
  AuthoritativeWorkSnapshot, ClaimRequest, LeaseOperation, LeaseRecord, LeaseRequest,
  LeaseTransaction, RuntimeAuthorityCheck, claim_request,
}
use x_sync.Lease.Requests.{valid_claim_request, valid_duration, valid_lease, valid_tenure}
use x_sync.Lease.Store.{claim, claim_check, claim_fresh, refuse_leased}
use x_sync.Lease.Terms.{
  acquired_lease, assert_commit_clock, assert_previous_clock, lease_at_commit, new_lease,
}
use x_sync.Text.{is_optional_sha256_digest, is_protocol_id, is_sha256_digest}
use x_sync.Work.{RunnableWork, valid_work_shape}

module _ ⦃h : Sha256⦄ ⦃digests : LeaseDigests⦄
    (digested : (operation : LeaseOperation) (q : LeaseRequest)
      → is_sha256_digest (digests.digest_of_request operation q) ≡ true)
    (hashed : (t : LeaseTransaction) → is_sha256_digest (digests.hash_of_transaction t) ≡ true)
    (host : LeaseHost) (request : ClaimRequest) (work : RunnableWork)
    (v : valid_claim_request request ≡ true) (w : WorkOf request.session_id work)
    (epoch : is_protocol_id host.runtime_epoch ≡ true) (same : request.work_id ≡ work.work_id) where
  -- The lease of a claim recorded at this time.
  abbrev pub lease_of_claim : ℕ → LeaseRecord
  lease_of_claim time =
      acquired_lease host work request.claim_id request.owner_id 1 time request.lease_seconds
        request.max_tenure_seconds

  lease_of_claim-valid : (time : ℕ) → valid_lease (lease_of_claim time) ≡ true
  unfolding valid_lease acquired_lease valid_claim_request valid_duration valid_tenure
      valid_work_shape
  lease_of_claim-valid time = ground (arith, w.0)

  claim_at_commit :
      (time : ℕ)
      → lease_at_commit host none work (claim_request request) time ≡ ok (lease_of_claim time)
  unfolding lease_at_commit new_lease
  claim_at_commit time = ground (arith, lease_of_claim-valid time)

  claim_history :
      (time : ℕ)
      → valid_history
          (committed_transaction [] work (claim_request request) time (lease_of_claim time) ∷ [])
        ≡ true
  unfolding valid_history valid_identity valid_claim valid_from committed_transaction
      provisional_transaction acquired_lease acquired_for has
  claim_history time = ground (arith, w.1)

  -- The transaction of a claim recorded at this time.
  abbrev pub transaction_of_claim : ℕ → LeaseTransaction
  transaction_of_claim time =
      committed_transaction [] work (claim_request request) time (lease_of_claim time)

  transaction_tree-claim :
      (transaction : LeaseTransaction) (time : ℕ)
      → transaction.request ≡ claim_request request
      → transaction.work ≡ work
      → transaction.lease ≡ lease_of_claim time
      → transaction_tree transaction ≡ ok tt
  unfolding transaction_tree check_request
  transaction_tree-claim transaction time q k l =
      let lease = lease_of_claim-valid time in ground (arith, w.2)

  transaction_of_claim-valid :
      (time : ℕ) → valid_transaction_record (transaction_of_claim time) ≡ true
  unfolding valid_transaction_record committed_transaction provisional_transaction
      transaction_hash_of valid_claim_request is_optional_sha256_digest
  transaction_of_claim-valid time =
      let d = digested LeaseOperation.claim (claim_request request) in
      let t =
        hashed
          (record (provisional_transaction [] work (claim_request request) time
            (lease_of_claim time)) { transaction_hash = "" }) in
      ground arith

  encode_transaction-claim :
      (time : ℕ)
      → digests.size_of_transaction (transaction_of_claim time) ≤ 65536
      → encode_transaction (transaction_of_claim time) ≡ ok (transaction_of_claim time)
  unfolding encode_transaction decode_transaction decode_work check_request committed_transaction
      provisional_transaction transaction_hash_of
  encode_transaction-claim time s =
      let tree = transaction_tree-claim (transaction_of_claim time) time refl refl refl in
      let lease = lease_of_claim-valid time in
      let valid = transaction_of_claim-valid time in ground (arith, w.2)

  claim_clock :
      (time boundary : ℕ)
      → time ≤ boundary
      → boundary < time + request.lease_seconds
      → assert_commit_clock LeaseOperation.claim none (lease_of_claim time) boundary ≡ ok tt
  unfolding assert_commit_clock assert_previous_clock acquired_lease valid_claim_request
      valid_tenure
  claim_clock time boundary o b = ground arith

  now-at :
      (calls : Calls) (time : ℕ)
      → host.clock calls.count ≡ some time
      → when false (ltb time) calls.last_clock_value ≡ false
      → now host calls
        ≡ ok (record {
          value = time;
          calls = record { count = calls.count + 1; last_clock_value = some time };
        })
  unfolding now read_value
  now-at calls time c n = ground arith

  verify_runtime-accepted :
      (check : RuntimeAuthorityCheck) (calls : Calls)
      → host.runtime_authority_verifier calls.count check ≡ some true
      → verify_runtime host check calls ≡ ok (called calls)
  unfolding verify_runtime accept_runtime
  verify_runtime-accepted check calls a = ground arith

  module _ (opens : (count : ℕ) → host.open_transaction_directory count ≡ none)
      (holds : (count : ℕ) → host.assert_authority count ≡ none)
      (writes : (count : ℕ) → host.write_temporary count ≡ none)
      (links : (count : ℕ) → host.link count ≡ none)
      (accepts : (count : ℕ)
        → host.runtime_authority_verifier count (claim_check host request) ≡ some true)
      (start recorded boundary : ℕ) where
    -- What the claim has committed, when its commit was called with these calls.
    abbrev pub committed_claim : Calls → Committed
    committed_claim calls = record {
      outcome = record {
        operation = LeaseOperation.claim;
        lease = lease_of_claim recorded;
        replayed = false;
      };
      transactions = transaction_of_claim recorded ∷ [];
      calls = record { count = calls.count + 4; last_clock_value = some boundary };
    }

    commit-claimed :
        (calls : Calls)
        → calls.last_clock_value ≡ some start
        → host.clock (calls.count + 1) ≡ some recorded
        → host.clock (calls.count + 3) ≡ some boundary
        → start ≤ recorded
        → recorded ≤ boundary
        → boundary < recorded + request.lease_seconds
        → digests.size_of_transaction (transaction_of_claim recorded) ≤ 65536
        → commit host [] [] work (claim_request request) (claim_check host request) calls
          ≡ ok (committed_claim calls)
    unfolding commit publish committed_transaction provisional_transaction
    commit-claimed calls l c1 c2 o1 o2 b s =
        let check = claim_check host request in
        let v1 = verify_runtime-accepted check calls (accepts _) in
        let n1 = now-at (called calls) recorded c1 (ground arith) in
        let after : Calls = record {
          count = calls.count + 1 + 1;
          last_clock_value = some recorded;
        } in
        let v2 = verify_runtime-accepted check after (accepts _) in
        let three : calls.count + 1 + 1 + 1 ≡ calls.count + 3 = omega arith in
        let n2 = now-at (called after) boundary (ap host.clock three ∙ c2) (ground arith) in
        let lease = claim_at_commit recorded in
        let history = claim_history recorded in
        let clock = claim_clock recorded boundary o2 b in
        let tree =
          transaction_tree-claim
            (provisional_transaction [] work (claim_request request) recorded
              (lease_of_claim recorded))
            recorded refl refl refl in
        let encoded = encode_transaction-claim recorded s in
        let opened = opens calls.count in
        let held = holds calls.count in
        let held_then = holds (calls.count + 1 + 1) in
        let written = writes (calls.count + 1 + 1) in
        let linked = links (calls.count + 1 + 1 + 1 + 1) in
        let four : calls.count + 1 + 1 + 1 + 1 ≡ calls.count + 4 = omega arith in ground arith

-- The valid claim of the current work goes through where no lease has been taken. The conditions are
-- that the runtime accepts the check of this owner for a claim, that the clock does not go back over
-- its three readings, the last of them within the lease, that the lock authority holds and the file
-- system works, that digests have their form and that the record has at most 65536 bytes. Then the
-- claim commits a first lease from the second reading on.
pub claim_succeeds :
    ⦃h : Sha256⦄ ⦃digests : LeaseDigests⦄
    → ((operation : LeaseOperation) (q : LeaseRequest)
        → is_sha256_digest (digests.digest_of_request operation q) ≡ true)
    → ((t : LeaseTransaction) → is_sha256_digest (digests.hash_of_transaction t) ≡ true)
    → (host : LeaseHost) (snapshot : AuthoritativeWorkSnapshot) (request : ClaimRequest)
      (work : RunnableWork) (calls : Calls) (start recorded boundary : ℕ)
    → valid_claim_request request ≡ true
    → is_protocol_id host.runtime_epoch ≡ true
    → load_current_work request.session_id snapshot ≡ ok work
    → request.work_id ≡ work.work_id
    → ((count : ℕ) → host.open_transaction_directory count ≡ none)
    → ((count : ℕ) → host.assert_authority count ≡ none)
    → ((count : ℕ) → host.write_temporary count ≡ none)
    → ((count : ℕ) → host.link count ≡ none)
    → ((count : ℕ)
        → host.runtime_authority_verifier count (record {
          operation = some LeaseOperation.claim;
          runtime_epoch = host.runtime_epoch;
          owner_id = request.owner_id;
          prior_runtime_epoch = none;
          prior_owner_id = none;
          prior_owner_must_be_inactive = false;
        })
          ≡ some true)
    → when false (ltb start) calls.last_clock_value ≡ false
    → host.clock calls.count ≡ some start
    → host.clock (calls.count + 3) ≡ some recorded
    → host.clock (calls.count + 5) ≡ some boundary
    → start ≤ recorded
    → recorded ≤ boundary
    → boundary < recorded + request.lease_seconds
    → digests.size_of_transaction (
        committed_transaction [] work (claim_request request) recorded (
          acquired_lease host work request.claim_id request.owner_id 1 recorded
            request.lease_seconds request.max_tenure_seconds))
      ≤ 65536
    → (committed : Committed) × (claim host snapshot [] [] request calls ≡ ok committed)
      × (committed.outcome.lease
          ≡ acquired_lease host work request.claim_id request.owner_id 1 recorded
              request.lease_seconds request.max_tenure_seconds)
      × (committed.outcome.replayed ≡ false)
      × (length committed.transactions ≡ 1)
unfolding claim claim_fresh refuse_leased replay_receipt receipt_of_request
claim_succeeds digested hashed host snapshot request work calls start recorded boundary v epoch l
      same opens holds writes links accepts back c0 c1 c2 o1 o2 b s =
    let w = load_current_work-WorkOf request.session_id snapshot work l in
    let n0 = now-at digested hashed host request work v w epoch same calls start c0 back in
    let check = claim_check host request in
    let after : Calls = record { count = calls.count + 1; last_clock_value = some start } in
    let v0 =
      verify_runtime-accepted digested hashed host request work v w epoch same check after
        (accepts _) in
    let four : calls.count + 1 + 1 + 1 ≡ calls.count + 3 = omega arith in
    let six : calls.count + 1 + 1 + 3 ≡ calls.count + 5 = omega arith in
    let done =
      commit-claimed digested hashed host request work v w epoch same opens holds writes links
        accepts start recorded boundary (called after) refl (ap host.clock four ∙ c1)
        (ap host.clock six ∙ c2) o1 o2 b s in
    (
      committed_claim digested hashed host request work v w epoch same opens holds writes links
          accepts start recorded boundary (called after),
      ground arith,
      refl,
      refl,
      refl,
    )
