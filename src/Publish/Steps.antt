-- ===== src/Publish/Steps.antt =====
-- The life of one row of publish_jobs as a step relation: what any method of the repository or of
-- the source, called at time `now` by the worker `who` or by a user, may do to a row. The methods are shown to
-- stay within it in Steps/Refinement, and the other children reason about it alone.
pub mod Rows
pub mod Within
pub mod Refinement
pub mod Status
pub mod Request
pub mod Lease
pub mod Shape
pub mod Progress
use roam_content_engine.Prelude.{ℕ, String, Bool, true, Option, ◌≡◌, ◌&&◌, holds, ltb, str_eq}
use roam_content_engine.Publish.Types.{
  PublishJob, PublishJobStatus, PublishJobStage, PublishDownloadMetadata, same_status,
}
use roam_content_engine.Publish.Statements.{is_free}
use roam_content_engine.Publish.Repository.Leases.{is_open, claimed, renewed}
use roam_content_engine.Publish.Repository.Settle.{
  submitted, still_waiting, to_retry, done, given_up, called_off,
}
use roam_content_engine.Publish.Repository.Cancel.{cancelled_by_request}
use roam_content_engine.Publish.Repository.Recovery.{is_stale, recovery}

-- the row is being processed by the worker
abbrev pub is_worked_by : String → PublishJob → Bool
is_worked_by w r =
    same_status r.status PublishJobStatus.processing && holds (λ o. str_eq o w) r.lease_owner

-- … under a lease that is still to expire
abbrev pub is_leased_by : ℕ → String → PublishJob → Bool
is_leased_by now w r = is_worked_by w r && holds (ltb now) r.lease_expires_at

pub data RowStep (now : ℕ) (who : String) : PublishJob → PublishJob → Type 0 where
  stays : {r : PublishJob} → RowStep now who r r
  claims :
      {r : PublishJob} (d : ℕ)
      → is_open r.status ≡ true
      → is_free now r ≡ true
      → RowStep now who r (claimed who d now r)
  renews :
      {r : PublishJob} (d : ℕ) → is_worked_by who r ≡ true → RowStep now who r (renewed d now r)
  stages :
      {r : PublishJob} (stage : PublishJobStage)
      → is_worked_by who r ≡ true
      → RowStep now who r (record r { stage = stage; updated_at = now })
  submits :
      {r : PublishJob} (job_id state : String) (correlation : Option String) (at poll_at : ℕ)
      → is_leased_by now who r ≡ true
      → RowStep now who r (submitted job_id state correlation at poll_at now r)
  waits :
      {r : PublishJob} (state : String) (correlation : Option String) (polled_at poll_at : ℕ)
      → is_leased_by now who r ≡ true
      → RowStep now who r (still_waiting state correlation polled_at poll_at now r)
  retries :
      {r : PublishJob} (code message : String) (attempt_at : ℕ)
      → is_leased_by now who r ≡ true
      → RowStep now who r (to_retry code message attempt_at now r)
  completes :
      {r : PublishJob} (state : String) (correlation : Option String) (polled_at : Option ℕ)
      (download : PublishDownloadMetadata)
      → is_leased_by now who r ≡ true
      → RowStep now who r (done state correlation polled_at download now r)
  fails :
      {r : PublishJob} (code message : String) (state correlation : Option String)
      (polled_at : Option ℕ)
      → is_leased_by now who r ≡ true
      → RowStep now who r (given_up code message state correlation polled_at now r)
  calls_off :
      {r : PublishJob} (state : String) (correlation : Option String) (polled_at : Option ℕ)
      → is_leased_by now who r ≡ true
      → RowStep now who r (called_off state correlation polled_at now r)
  cancels :
      {r : PublishJob} → is_open r.status ≡ true → RowStep now who r (cancelled_by_request now r)
  recovers :
      {r : PublishJob} (stale : PublishJob) (max delay : ℕ)
      → is_stale now r ≡ true
      → RowStep now who r (recovery now max delay stale r)
