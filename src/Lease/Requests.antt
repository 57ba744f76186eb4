-- ===== src/Lease/Requests.antt =====
-- The validators of requests, fences, leases and exhaustion proofs of xsync_v2/lease_store.py. Its
-- patterns of ids and digests are those of work_identity.py.
use x_sync.Prelude.{Bool, String-eq, leb, ltb, ℕ, ℕ-eq, ◌&&◌, ◌==◌}
use x_sync.Lease.Model.{
  ClaimRequest, LeaseExhaustionProof, LeaseRecord, PublishFence, ReclaimRequest, RenewRequest,
}
use x_sync.Text.{is_protocol_id, is_sha256_digest}

abbrev pub max_lease_seconds : ℕ
max_lease_seconds = 3600

abbrev pub max_tenure_seconds : ℕ
max_tenure_seconds = 86400

abbrev pub max_renewals_per_tenure : ℕ
max_renewals_per_tenure = 256

abbrev pub max_reclaims_per_work : ℕ
max_reclaims_per_work = 2

unfoldable pub valid_duration : ℕ → Bool
valid_duration value = leb 1 value && leb value max_lease_seconds

unfoldable pub valid_tenure : ℕ → ℕ → Bool
valid_tenure value lease_seconds =
    leb 1 value && leb value max_tenure_seconds && leb lease_seconds value

-- Each `_validate_…` below raises exactly where its test is false.
unfoldable pub valid_claim_request : ClaimRequest → Bool
valid_claim_request request =
    is_protocol_id request.session_id
    && is_protocol_id request.request_id
    && is_protocol_id request.claim_id
    && is_protocol_id request.work_id
    && is_protocol_id request.owner_id
    && valid_duration request.lease_seconds
    && valid_tenure request.max_tenure_seconds request.lease_seconds

unfoldable pub valid_reclaim_request : ReclaimRequest → Bool
valid_reclaim_request request =
    is_protocol_id request.session_id
    && is_protocol_id request.request_id
    && is_protocol_id request.claim_id
    && is_protocol_id request.work_id
    && is_protocol_id request.owner_id
    && leb 1 request.expected_work_attempt
    && valid_duration request.lease_seconds
    && valid_tenure request.max_tenure_seconds request.lease_seconds

unfoldable pub valid_renew_request : RenewRequest → Bool
valid_renew_request request =
    is_protocol_id request.session_id
    && is_protocol_id request.request_id
    && is_protocol_id request.claim_id
    && is_protocol_id request.work_id
    && is_protocol_id request.owner_id
    && leb 1 request.expected_lease_version
    && valid_duration request.lease_seconds

unfoldable pub valid_publish_fence : PublishFence → Bool
valid_publish_fence fence =
    is_protocol_id fence.session_id
    && is_protocol_id fence.claim_id
    && is_protocol_id fence.work_id
    && is_protocol_id fence.owner_id
    && is_protocol_id fence.runtime_epoch
    && leb 1 fence.lease_version
    && leb 1 fence.registry_generation

unfoldable pub valid_lease : LeaseRecord → Bool
valid_lease lease =
    is_protocol_id lease.session_id
    && is_protocol_id lease.work_id
    && is_sha256_digest lease.binding_digest
    && is_protocol_id lease.claim_id
    && is_protocol_id lease.owner_id
    && is_protocol_id lease.runtime_epoch
    && leb 1 lease.lease_version
    && leb 1 lease.registry_generation
    && leb 1 lease.expires_at
    && leb 1 lease.absolute_expires_at
    && leb lease.acquired_at lease.renewed_at
    && ltb lease.renewed_at lease.expires_at
    && leb lease.expires_at lease.absolute_expires_at

unfoldable pub valid_exhaustion_proof : LeaseExhaustionProof → Bool
valid_exhaustion_proof proof =
    is_protocol_id proof.session_id
    && is_protocol_id proof.work_id
    && is_sha256_digest proof.binding_digest
    && leb 1 proof.work_attempt
    && (proof.reclaim_count == max_reclaims_per_work)
    && leb 1 proof.last_lease_version
    && is_sha256_digest proof.history_digest
    && is_protocol_id proof.requesting_runtime_epoch
    && is_protocol_id proof.requesting_owner_id
    && is_protocol_id proof.reclaim_request_id
    && is_sha256_digest proof.reclaim_request_digest

unfoldable pub same_claim : LeaseRecord → LeaseRecord → Bool
same_claim left right =
    (left.session_id == right.session_id)
    && (left.work_id == right.work_id)
    && (left.binding_digest == right.binding_digest)
    && (left.claim_id == right.claim_id)
    && (left.owner_id == right.owner_id)
    && (left.runtime_epoch == right.runtime_epoch)
    && (left.registry_generation == right.registry_generation)
    && (left.acquired_at == right.acquired_at)
    && (left.absolute_expires_at == right.absolute_expires_at)
