-- ===== src/Publish/Repository/Cancel.antt =====
-- DrizzlePublishJobRepository.cancel: the only method that a user's request calls on a job, and the
-- only one that no lease protects.
pub mod Cases
use roam_content_engine.Prelude.{ℕ, String, Option, none, some, ◌&&◌, if◌then◌else◌}
use roam_content_engine.Errors.{conflict, not_found}
use roam_content_engine.Db.{
  Db, ◌>>=◌, ◌>>◌, pure, throw, query, transaction, translating, find_first,
}
use roam_content_engine.Publish.Types.{
  PublishJob, PublishJobStatus, PublishJobStage, PublishJobEventType, Tables, same_status,
}
use roam_content_engine.Publish.Statements.{
  update_jobs, insert_event, names_job, release, unschedule,
}
use roam_content_engine.Publish.Repository.Leases.{validate_tenant_id, is_open}

abbrev pub cancelled_by_request : ℕ → PublishJob → PublishJob
cancelled_by_request now r = release now (
    unschedule (record r {
      status = PublishJobStatus.cancelled;
      stage = PublishJobStage.cancelled;
      cancelled_at = some now;
    }))

-- behind the UPDATE
unfoldable pub cancel_updated : PublishJob → ℕ → Option PublishJob → Db Tables PublishJob
cancel_updated current now none = throw (
    conflict "PUBLISH_JOB_INVALID_STATE"
      "Publish job state changed concurrently and can no longer be cancelled.")
cancel_updated current now (some updated) = do
  insert_event updated PublishJobEventType.publish_cancelled (some current.status)
      (some PublishJobStatus.cancelled) none now
  pure updated

-- behind the SELECT
unfoldable pub cancel_current : String → String → ℕ → Option PublishJob → Db Tables PublishJob
unfolding cancel_updated
cancel_current tenant_id job_id now none = throw (not_found "Publish job was not found.")
cancel_current tenant_id job_id now (some current) =
    if is_open current.status
    then (update_jobs (λ r. names_job tenant_id job_id r && same_status r.status current.status)
          (cancelled_by_request now)
        >>= cancel_updated current now)
    else throw (
        conflict "PUBLISH_JOB_INVALID_STATE"
          "Publish job can only be cancelled from queued, waiting, or retrying states.")

unfoldable pub cancel : String → String → ℕ → Db Tables PublishJob
unfolding cancel_current
cancel tenant_id job_id now = do
  validate_tenant_id tenant_id
  translating "Unable to cancel publish job." (
      transaction do
        current ← query λ t _. find_first (names_job tenant_id job_id) t.publish_jobs
        cancel_current tenant_id job_id now current)
