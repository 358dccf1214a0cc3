-- ===== src/Publish/Source.antt =====
-- DatabasePublishJobSource (src/infrastructure/publish-jobs/database-publish-job-source.ts): how a
-- worker takes the next job and keeps it. The worker's name is not trimmed here.
pub mod Queue
pub mod Claim
pub mod Returns
use roam_content_engine.Prelude.{
  ℕ, String, Bool, true, false, Option, none, some, ◌&&◌, ◌||◌, ltb, leb, ◌==◌, holds, not,
  coalesce, first_some, head?, select, str_eq,
}
use roam_content_engine.Db.{Db, ◌>>=◌, pure, query, transaction, translating, order_by}
use roam_content_engine.Publish.Types.{PublishJob, PublishJobStatus, Tables}
use roam_content_engine.Publish.Statements.{Caller, update_jobs, holds_lease, is_free}
use roam_content_engine.Publish.Repository.Leases.{claim_candidate, renewed}

-- ClaimedPublishJob of src/domain/publish-jobs/publish-worker-types.ts
pub record ClaimedPublishJob : Type 0 where
  pub tenant_id : String
  pub publish_job_id : String
  pub worker_id : String
  pub lease_expires_at : ℕ

-- the condition of the SELECT on a row's status and dates
unfoldable pub is_due : ℕ → PublishJobStatus → PublishJob → Bool
is_due now PublishJobStatus.queued r = true
is_due now PublishJobStatus.retrying r = holds (λ t. leb t now) r.next_attempt_at
is_due now PublishJobStatus.waiting r = holds (λ t. leb t now) r.next_poll_at
is_due now _ r = false

unfoldable pub is_candidate : ℕ → PublishJob → Bool
unfolding is_due
is_candidate now r = is_due now r.status r && is_free now r

-- `order by coalesce(next_attempt_at, next_poll_at, created_at) asc, created_at asc`
abbrev pub due_at : PublishJob → ℕ
due_at r = coalesce (first_some r.next_attempt_at r.next_poll_at) r.created_at

unfoldable pub due_order : PublishJob → PublishJob → Bool
due_order a b = ltb (due_at a) (due_at b) || (due_at a == due_at b && leb a.created_at b.created_at)

-- the row that the SELECT returns; `for update skip locked` passes over the locked ones
unfoldable pub next_candidate : ℕ → (String → Bool) → Tables → Option PublishJob
unfolding due_order
next_candidate now locked t =
    head?
      (order_by due_order (select (λ r. is_candidate now r && not (locked r.id)) t.publish_jobs))

-- what is returned to the worker; `updated.leaseExpiresAt` was just assigned
unfoldable pub claim_of : String → Option PublishJob → Option ClaimedPublishJob
claim_of worker_id none = none
claim_of worker_id (some r) = elim r.lease_expires_at [
  | none ↦ none
  | some t ↦ some (record {
    tenant_id = r.tenant_id;
    publish_job_id = r.id;
    worker_id = worker_id;
    lease_expires_at = t;
  })
]

-- the UPDATE names the candidate's tenant too
unfoldable pub claim_found : String → ℕ → ℕ → Option PublishJob → Db Tables (Option PublishJob)
claim_found worker_id lease_duration_ms now none = pure none
claim_found worker_id lease_duration_ms now (some k) =
    claim_candidate (λ r. str_eq r.tenant_id k.tenant_id) worker_id lease_duration_ms now (some k)

unfoldable pub acquire_next : String → ℕ → ℕ → Db Tables (Option ClaimedPublishJob)
unfolding claim_of next_candidate claim_found
acquire_next worker_id lease_duration_ms now = translating "Unable to acquire next publish job." (
    transaction do
      candidate ← query λ t locked. next_candidate now locked t
      claim ← claim_found worker_id lease_duration_ms now candidate
      pure (claim_of worker_id claim))

unfoldable pub renew_lease : Caller → ℕ → Db Tables (Option ClaimedPublishJob)
unfolding claim_of
renew_lease c lease_duration_ms = translating "Unable to renew publish job lease." do
  updated ← update_jobs (holds_lease c c.worker_id) (renewed lease_duration_ms c.now)
  pure (claim_of c.worker_id updated)
