-- ===== src/Lease/Publish.antt =====
-- `_assert_publishable_for_work` of xsync_v2/lease_store.py: the fence before a result is published.
use x_sync.Prelude.{
  Bool, Error, List, Result, String-eq, err, guard, none, ok, some, ℕ-eq, ◌&&◌, ◌==◌, ◌>>=◌, ◌>>◌,
}
use x_sync.Identity.{Sha256}
use x_sync.Lease.Clock.{Calls, LeaseHost, now, verify_runtime}
use x_sync.Lease.Current.{load_current_work}
use x_sync.Lease.Model.{AuthoritativeWorkSnapshot, LeaseRecord, LeaseTransaction, PublishFence}
use x_sync.Lease.Requests.{valid_publish_fence}
use x_sync.Lease.Store.{owner_check}
use x_sync.Lease.Terms.{assert_renewable, last_transaction}
use x_sync.Work.{RunnableWork, validate_runnable_work}

-- The fence and the store name the lease and the work.
unfoldable pub fence_matches : LeaseHost → PublishFence → LeaseRecord → RunnableWork → Bool
fence_matches host fence current work =
    (fence.claim_id == current.claim_id)
    && (fence.owner_id == current.owner_id)
    && (fence.runtime_epoch == current.runtime_epoch)
    && (current.runtime_epoch == host.runtime_epoch)
    && (fence.lease_version == current.lease_version)
    && (fence.registry_generation == work.registry_generation)
    && (current.registry_generation == work.registry_generation)
    && (current.binding_digest == work.binding_digest)

-- What is tested of the last transaction of the history: the lease that may be published for.
unfoldable pub assert_publishable_last :
    LeaseHost → PublishFence → RunnableWork → LeaseTransaction → Calls → Result LeaseRecord
assert_publishable_last host fence work last calls = do
  guard (fence_matches host fence last.lease work) Error.lease_fenced
  reading ← now host calls
  assert_renewable last.lease reading.value
  verified ← verify_runtime host (owner_check none last.lease) reading.calls
  ok last.lease

module _ ⦃h : Sha256⦄ where
  unfoldable pub assert_publishable_for_work :
      LeaseHost → PublishFence → RunnableWork → List LeaseTransaction → Calls → Result LeaseRecord
  assert_publishable_for_work host fence work history calls = do
    guard (valid_publish_fence fence) Error.invalid_publish_fence
    validated ← validate_runnable_work work
    guard (fence.session_id == work.session_id) Error.work_superseded
    guard (fence.work_id == work.work_id) Error.work_superseded
    elim (last_transaction history) [
      | none ↦ err Error.lease_not_found
      | some last ↦ assert_publishable_last host fence work last calls
    ]

  unfoldable pub assert_publishable :
      LeaseHost
      → AuthoritativeWorkSnapshot
      → PublishFence
      → List LeaseTransaction
      → Calls
      → Result LeaseRecord
  assert_publishable host snapshot fence history calls = do
    guard (valid_publish_fence fence) Error.invalid_publish_fence
    work ← load_current_work fence.session_id snapshot
    assert_publishable_for_work host fence work history calls
