-- ===== src/Laws/Lease/Last.antt =====
-- The last transaction of a history, and what `_commit` of xsync_v2/lease_store.py has written when it
-- returns.
use x_sync.Prelude.{
  Error, List, Option, Option-cases, [], arith, false, inl, inr, length, none, ok, refl, some, true,
  ℕ, ◌++◌, ◌+◌, ◌∷◌, ◌≡◌, ◌≤◌,
}
use x_sync.Identity.{Sha256}
use x_sync.Laws.Lease.Staged.{commit-Staged}
use x_sync.Lease.Clock.{Calls, LeaseHost}
use x_sync.Lease.Commit.{
  Committed, commit, committed_transaction, concurrent_receipt, provisional_transaction, publish,
  receipt_of_request, replay_of,
}
use x_sync.Lease.Encode.{LeaseDigests}
use x_sync.Lease.History.{
  HistoryLoop, first_loop, next_loop, valid_from, valid_history, valid_identity,
}
use x_sync.Lease.Model.{LeaseRecord, LeaseRequest, LeaseTransaction, RuntimeAuthorityCheck}
use x_sync.Lease.Terms.{last_transaction, lease_at_commit}
use x_sync.Session.{link_error}
use x_sync.Work.{RunnableWork}

pub last_transaction-append :
    (history : List LeaseTransaction) (t : LeaseTransaction)
    → last_transaction (history ++ t ∷ []) ≡ some t
last_transaction-append [] t = refl
last_transaction-append (x ∷ []) t = refl
last_transaction-append (x ∷ y ∷ history) t = last_transaction-append (y ∷ history) t

pub length-append_one :
    (history : List LeaseTransaction) (t : LeaseTransaction)
    → length (history ++ t ∷ []) ≡ length history + 1
length-append_one [] t = refl
length-append_one (x ∷ history) t = ground (arith, length-append_one history t)

valid_from_last :
    (index : ℕ) (loop : HistoryLoop) (t : LeaseTransaction) (ts : List LeaseTransaction)
    (last : LeaseTransaction)
    → valid_from index loop (t ∷ ts) ≡ true
    → last_transaction (t ∷ ts) ≡ some last
    → last.lease.lease_version + 1 ≡ index + length (t ∷ ts)
unfolding valid_from valid_identity
valid_from_last index loop t [] last v e = ground arith
valid_from_last index loop t (x ∷ ts) last v e =
    let rest =
      valid_from_last (index + 1) (next_loop loop t t.operation) x ts last (ground arith) e in
    ground arith

-- The version of the last lease of a valid history is the number of its transactions.
pub valid_history_last :
    (history : List LeaseTransaction) (last : LeaseTransaction)
    → valid_history history ≡ true
    → last_transaction history ≡ some last
    → last.lease.lease_version ≡ length history
unfolding valid_history valid_identity
valid_history_last [] last v e = ground arith
valid_history_last (t ∷ []) last v e = ground arith
valid_history_last (t ∷ x ∷ ts) last v e =
    let rest = valid_from_last 2 (first_loop t) x ts last (ground arith) e in ground arith

valid_from_prefix :
    (index : ℕ) (loop : HistoryLoop) (history : List LeaseTransaction) (t : LeaseTransaction)
    → valid_from index loop (history ++ t ∷ []) ≡ true
    → valid_from index loop history ≡ true
unfolding valid_from
valid_from_prefix index loop [] t v = refl
valid_from_prefix index loop (x ∷ history) t v =
    let rest = valid_from_prefix (index + 1) (next_loop loop x x.operation) history t in
    ground arith

-- A history that is valid with one transaction more is valid.
pub valid_history_prefix :
    (history : List LeaseTransaction) (t : LeaseTransaction)
    → valid_history (history ++ t ∷ []) ≡ true
    → valid_history history ≡ true
unfolding valid_history
valid_history_prefix [] t v = refl
valid_history_prefix (x ∷ history) t v =
    let rest = valid_from_prefix 2 (first_loop x) history t in ground arith

-- What a commit has written.
pub record Published ⦃digests : LeaseDigests⦄ (host : LeaseHost)
    (history durable : List LeaseTransaction) (work : RunnableWork) (request : LeaseRequest)
    (committed : Committed) : Type 0 where
  pub recorded_at : ℕ
  pub lease : LeaseRecord
  pub computed : lease_at_commit host (last_transaction history) work request recorded_at ≡ ok lease
  pub written :
      committed.transactions
      ≡ durable ++ committed_transaction history work request recorded_at lease ∷ []
  pub extends_valid :
      valid_history (history ++ committed_transaction history work request recorded_at lease ∷ [])
      ≡ true
  pub was_last : length durable ≤ length history
  pub returned : committed.outcome.lease ≡ lease

module _ ⦃digests : LeaseDigests⦄ where
  -- Without a replay, the directory had no transaction of this sequence.
  publish-small :
      (history durable : List LeaseTransaction) (t : LeaseTransaction) (calls : Calls)
      (link_error : Option Error) (committed : Committed)
      → publish history durable t calls link_error ≡ ok committed
      → committed.outcome.replayed ≡ false
      → length durable ≤ length history
  unfolding publish concurrent_receipt replay_of
  publish-small history durable t calls link_error committed p n =
      elim (Option-cases (receipt_of_request durable t.request_id)) [
        | inl none_found ↦ ground arith
        | inr (receipt, found) ↦ ground arith
      ]

  publish-linked :
      (history durable : List LeaseTransaction) (t : LeaseTransaction) (calls : Calls)
      (link_error : Option Error) (committed : Committed)
      → publish history durable t calls link_error ≡ ok committed
      → length durable ≤ length history
      → publish history durable t calls none ≡ ok committed
  unfolding publish
  publish-linked history durable t calls none committed p s = p
  publish-linked history durable t calls (some code) committed p s = ground arith

  publish-Published :
      (host : LeaseHost) (history durable : List LeaseTransaction) (work : RunnableWork)
      (request : LeaseRequest) (time : ℕ) (lease : LeaseRecord) (calls : Calls)
      (link_error : Option Error) (committed : Committed)
      → lease_at_commit host (last_transaction history) work request time ≡ ok lease
      → valid_history (history ++ committed_transaction history work request time lease ∷ []) ≡ true
      → publish history durable
          (committed_transaction history work request time lease)
          calls
          link_error
        ≡ ok committed
      → committed.outcome.replayed ≡ false
      → Published host history durable work request committed
  unfolding publish committed_transaction provisional_transaction
  publish-Published host history durable work request time lease calls link_error committed l v p
        n =
      let small = publish-small history durable _ calls link_error committed p n in
      let linked = publish-linked history durable _ calls link_error committed p small in
      record {
        recorded_at = time;
        lease = lease;
        computed = l;
        written = ground arith;
        extends_valid = v;
        was_last = small;
        returned = ground arith;
      }

  module _ ⦃h : Sha256⦄ where
    -- A commit that is no replay has published one transaction.
    pub commit-Published :
        (host : LeaseHost) (history durable : List LeaseTransaction) (work : RunnableWork)
        (request : LeaseRequest) (check : RuntimeAuthorityCheck) (calls : Calls)
        (committed : Committed)
        → commit host history durable work request check calls ≡ ok committed
        → committed.outcome.replayed ≡ false
        → Published host history durable work request committed
    commit-Published host history durable work request check calls committed c n =
        let s = commit-Staged host history durable work request check calls committed c in
        publish-Published host history durable work request s.recorded_at s.lease s.after
          (host.link s.after.count) committed s.computed s.extends_valid s.published n
