-- ===== src/Laws/Lease/Tenure.antt =====
-- Every lease of xsync_v2/lease_store.py is bounded in time.
use x_sync.Prelude.{
  Bool, List, Option, String, [], all, arith, false, leb, none, ok, refl, some, true, ℕ, ◌&&◌, ◌+◌,
  ◌∷◌, ◌≡◌,
}
use x_sync.Identity.{Sha256}
use x_sync.Laws.Lease.Last.{commit-Published}
use x_sync.Lease.Clock.{Calls, LeaseHost}
use x_sync.Lease.Commit.{Committed, commit}
use x_sync.Lease.Encode.{LeaseDigests}
use x_sync.Lease.Model.{
  LeaseRecord, LeaseRequest, LeaseTransaction, RuntimeAuthorityCheck, claim_request,
  reclaim_request, renew_request,
}
use x_sync.Lease.Requests.{
  valid_claim_request, valid_duration, valid_reclaim_request, valid_renew_request, valid_tenure,
}
use x_sync.Lease.Terms.{
  acquired_lease, assert_claim_binding, assert_renewable, last_transaction, lease_at_commit,
  new_lease, reclaimed_lease, renewed_lease,
}
use x_sync.Work.{RunnableWork}

-- A lease expires within an hour of its renewal and before its tenure ends, and a tenure ends within
-- a day.
abbrev pub is_tenured : LeaseRecord → Bool
is_tenured lease =
    leb lease.expires_at (lease.renewed_at + 3600)
    && leb lease.expires_at lease.absolute_expires_at
    && leb lease.absolute_expires_at (lease.acquired_at + 86400)

-- The test of `claim`, `renew` or `reclaim` on its request.
abbrev pub valid_request : LeaseRequest → Bool
valid_request (claim_request r) = valid_claim_request r
valid_request (renew_request r) = valid_renew_request r
valid_request (reclaim_request r) = valid_reclaim_request r

last-tenured :
    (history : List LeaseTransaction) (last : LeaseTransaction)
    → all (λ (t : LeaseTransaction). is_tenured t.lease) history ≡ true
    → last_transaction history ≡ some last
    → is_tenured last.lease ≡ true
unfolding all
last-tenured [] last a e = ground arith
last-tenured (t ∷ []) last a e = ground arith
last-tenured (t ∷ x ∷ ts) last a e = last-tenured (x ∷ ts) last (ground arith) e

new_lease-tenured :
    (host : LeaseHost) (work : RunnableWork) (claim_id owner_id : String)
    (version time seconds tenure : ℕ) (lease : LeaseRecord)
    → valid_duration seconds ≡ true
    → valid_tenure tenure seconds ≡ true
    → new_lease host work claim_id owner_id version time seconds tenure ≡ ok lease
    → is_tenured lease ≡ true
unfolding new_lease acquired_lease valid_duration valid_tenure
new_lease-tenured host work claim_id owner_id version time seconds tenure lease d t r = ground arith

lease_at_commit-tenured :
    (host : LeaseHost) (last : Option LeaseTransaction) (work : RunnableWork)
    (request : LeaseRequest) (time : ℕ) (lease : LeaseRecord)
    → valid_request request ≡ true
    → ((t : LeaseTransaction) → last ≡ some t → is_tenured t.lease ≡ true)
    → lease_at_commit host last work request time ≡ ok lease
    → is_tenured lease ≡ true
unfolding lease_at_commit renewed_lease reclaimed_lease valid_claim_request valid_renew_request
    valid_reclaim_request valid_duration assert_claim_binding assert_renewable
lease_at_commit-tenured host none work (claim_request q) time lease v a r =
    new_lease-tenured host work q.claim_id q.owner_id 1 time q.lease_seconds q.max_tenure_seconds
      lease (ground arith) (ground arith) r
lease_at_commit-tenured host (some t) work (claim_request q) time lease v a r = ground arith
lease_at_commit-tenured host none work (renew_request q) time lease v a r = ground arith
lease_at_commit-tenured host (some t) work (renew_request q) time lease v a r =
    let old = a t refl in ground arith
lease_at_commit-tenured host none work (reclaim_request q) time lease v a r = ground arith
lease_at_commit-tenured host (some t) work (reclaim_request q) time lease v a r =
    new_lease-tenured host work q.claim_id q.owner_id (t.lease.lease_version + 1) time
      q.lease_seconds q.max_tenure_seconds lease (ground arith) (ground arith) (ground arith)

-- A commit of a valid request on a history of bounded leases returns a bounded lease: it expires at
-- most an hour after it was renewed and not after its tenure, and the tenure takes at most a day.
pub commit-tenured :
    ⦃h : Sha256⦄ ⦃digests : LeaseDigests⦄ (host : LeaseHost)
    (history durable : List LeaseTransaction) (work : RunnableWork) (request : LeaseRequest)
    (check : RuntimeAuthorityCheck) (calls : Calls) (committed : Committed)
    → valid_request request ≡ true
    → all (λ (t : LeaseTransaction). is_tenured t.lease) history ≡ true
    → commit host history durable work request check calls ≡ ok committed
    → committed.outcome.replayed ≡ false
    → is_tenured committed.outcome.lease ≡ true
commit-tenured host history durable work request check calls committed v a c n =
    let w = commit-Published host history durable work request check calls committed c n in
    rw w.returned (
      lease_at_commit-tenured host (last_transaction history) work request w.recorded_at w.lease v
        (λ t e. last-tenured history t a e) w.computed)
