-- ===== src/Laws/Lease/Staged.antt =====
-- The stages of `_commit` of xsync_v2/lease_store.py, and the two times at which it tests that it may
-- still write.
use mathlib.Core.Path.{subst}
use x_sync.Prelude.{
  >>=-eq-ok, Error, List, Option, String-eq, [], arith, count, guard, guard-eq-ok, leb, none, ok,
  raise_any, refl, some, true, ℕ, ◌++◌, ◌+◌, ◌==◌, ◌∷◌, ◌≡◌,
}
use x_sync.Identity.{Sha256}
use x_sync.Lease.Clock.{
  Calls, LeaseHost, Reading, accept_runtime, called, now, read_value, verify_runtime,
}
use x_sync.Lease.Commit.{Committed, commit, committed_transaction, provisional_transaction, publish}
use x_sync.Lease.Encode.{
  LeaseDigests, check_request, decode_transaction, decode_work, encode_transaction,
  max_transaction_bytes, transaction_hash_of, transaction_tree, valid_transaction_record,
}
use x_sync.Lease.History.{valid_history}
use x_sync.Lease.Model.{LeaseRecord, LeaseRequest, LeaseTransaction, RuntimeAuthorityCheck}
use x_sync.Lease.Requests.{valid_lease}
use x_sync.Lease.Terms.{assert_commit_clock, last_transaction, lease_at_commit, operation_of}
use x_sync.Work.{RunnableWork}

-- The stages of a commit that returns.
pub record Staged ⦃digests : LeaseDigests⦄ (host : LeaseHost)
    (history durable : List LeaseTransaction) (work : RunnableWork) (request : LeaseRequest)
    (check : RuntimeAuthorityCheck) (calls : Calls) (committed : Committed) : Type 0 where
  pub recorded_at : ℕ
  pub lease : LeaseRecord
  pub boundary : ℕ
  pub after : Calls
  pub held : host.assert_authority calls.count ≡ none
  pub accepted : host.runtime_authority_verifier calls.count check ≡ some true
  pub computed : lease_at_commit host (last_transaction history) work request recorded_at ≡ ok lease
  pub extends_valid :
      valid_history (history ++ committed_transaction history work request recorded_at lease ∷ [])
      ≡ true
  pub held_again : host.assert_authority (calls.count + 2) ≡ none
  pub accepted_again : host.runtime_authority_verifier (calls.count + 2) check ≡ some true
  pub read_again : host.clock (calls.count + 3) ≡ some boundary
  pub in_time :
      assert_commit_clock (operation_of request) (last_transaction history) lease boundary ≡ ok tt
  pub published :
      publish history durable
        (committed_transaction history work request recorded_at lease)
        after
        (host.link after.count)
      ≡ ok committed

raise_any-eq-ok : (error : Option Error) {u : Unit {0}} → raise_any error ≡ ok u → error ≡ none
raise_any-eq-ok none r = refl
raise_any-eq-ok (some code) r = cc

verify_runtime-eq-ok :
    (host : LeaseHost) (check : RuntimeAuthorityCheck) (calls verified : Calls)
    → verify_runtime host check calls ≡ ok verified
    → (host.runtime_authority_verifier calls.count check ≡ some true) × (verified ≡ called calls)
unfolding verify_runtime accept_runtime
verify_runtime-eq-ok host check calls verified v = ground arith

now-eq-ok :
    (host : LeaseHost) (calls : Calls) (reading : Reading)
    → now host calls ≡ ok reading
    → (host.clock calls.count ≡ some reading.value) × (reading.calls.count ≡ calls.count + 1)
unfolding now read_value
now-eq-ok host calls reading n = ground arith

counted_two :
    (calls verified : Calls) (count : ℕ)
    → verified ≡ called calls
    → count ≡ verified.count + 1
    → count ≡ calls.count + 2
counted_two calls verified count v c = ground arith

counted_three :
    (calls recorded guarded : Calls)
    → recorded.count ≡ calls.count + 2
    → guarded ≡ called recorded
    → guarded.count ≡ calls.count + 3
counted_three calls recorded guarded r g = ground arith

module _ ⦃h : Sha256⦄ ⦃digests : LeaseDigests⦄ where
  -- A transaction is encoded as it is.
  encode_transaction-same :
      (transaction encoded : LeaseTransaction)
      → encode_transaction transaction ≡ ok encoded
      → encoded ≡ transaction
  unfolding encode_transaction decode_transaction
  encode_transaction-same transaction encoded e =
      let (_, t, e1) = >>=-eq-ok (transaction_tree transaction) _ e in
      let (_, s, e2) =
        >>=-eq-ok
          (guard (transaction_hash_of transaction == transaction.transaction_hash)
            Error.lease_record_invalid)
          _ e1 in
      let (_, l, e3) =
        >>=-eq-ok
          (guard (leb (digests.size_of_transaction transaction) max_transaction_bytes)
            Error.lease_record_too_large)
          _ e2 in
      let (_, r, e4) = >>=-eq-ok (check_request transaction.request) _ e3 in
      let (work, w, e5) = >>=-eq-ok (decode_work transaction.work) _ e4 in
      let (_, v, e6) =
        >>=-eq-ok (guard (valid_lease transaction.lease) Error.lease_record_invalid) _ e5 in
      let (_, f, e7) =
        >>=-eq-ok (guard (valid_transaction_record transaction) Error.lease_record_invalid) _ e6 in
      cc

  pub commit-Staged :
      (host : LeaseHost) (history durable : List LeaseTransaction) (work : RunnableWork)
      (request : LeaseRequest) (check : RuntimeAuthorityCheck) (calls : Calls)
      (committed : Committed)
      → commit host history durable work request check calls ≡ ok committed
      → Staged host history durable work request check calls committed
  unfolding commit
  commit-Staged host history durable work request check calls committed c =
      let (_, o, a0) = >>=-eq-ok (raise_any (host.open_transaction_directory calls.count)) _ c in
      let (_, a, a1) = >>=-eq-ok (raise_any (host.assert_authority calls.count)) _ a0 in
      let (verified, v, c1) = >>=-eq-ok (verify_runtime host check calls) _ a1 in
      let (recorded, r, c2) = >>=-eq-ok (now host verified) _ c1 in
      let (lease, l, c3) =
        >>=-eq-ok (lease_at_commit host (last_transaction history) work request recorded.value) _
          c2 in
      let provisional = provisional_transaction history work request recorded.value lease in
      let transaction = committed_transaction history work request recorded.value lease in
      let (_, y, b0) = >>=-eq-ok (transaction_tree provisional) _ c3 in
      let (_, g, c4) =
        >>=-eq-ok (guard (valid_history (history ++ transaction ∷ [])) Error.lease_history_invalid)
          _ b0 in
      let (encoded, e, d0) = >>=-eq-ok (encode_transaction transaction) _ c4 in
      let (_, w, d1) = >>=-eq-ok (raise_any (host.write_temporary recorded.calls.count)) _ d0 in
      let (_, q, d2) = >>=-eq-ok (raise_any (host.assert_authority recorded.calls.count)) _ d1 in
      let (guarded, v2, c5) = >>=-eq-ok (verify_runtime host check recorded.calls) _ d2 in
      let (boundary, b, c6) = >>=-eq-ok (now host guarded) _ c5 in
      let (_, k, c7) =
        >>=-eq-ok
          (assert_commit_clock (operation_of request) (last_transaction history) lease
            boundary.value)
          _ c6 in
      let same = encode_transaction-same transaction encoded e in
      let first = verify_runtime-eq-ok host check calls verified v in
      let time = now-eq-ok host verified recorded r in
      let second = verify_runtime-eq-ok host check recorded.calls guarded v2 in
      let last = now-eq-ok host guarded boundary b in
      let two = counted_two calls verified recorded.calls.count first.1 time.1 in
      let three = counted_three calls recorded.calls guarded two second.1 in
      record {
        recorded_at = recorded.value;
        lease = lease;
        boundary = boundary.value;
        after = boundary.calls;
        held = raise_any-eq-ok _ a;
        accepted = first.0;
        computed = l;
        extends_valid = guard-eq-ok _ _ g;
        held_again = subst (λ n. host.assert_authority n ≡ none) two (raise_any-eq-ok _ q);
        accepted_again =
            subst (λ n. host.runtime_authority_verifier n check ≡ some true) two second.0;
        read_again = subst (λ n. host.clock n ≡ some boundary.value) three last.0;
        in_time = k;
        published =
            subst
              (λ t.
                publish history durable t boundary.calls (host.link boundary.calls.count)
                ≡ ok committed)
              same c7;
      }
