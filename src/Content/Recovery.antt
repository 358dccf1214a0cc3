-- ===== src/Content/Recovery.antt =====
-- How jobs whose worker has gone are taken up again: listStaleProcessingJobs and recoverStaleJob of
-- src/infrastructure/workers/database-job-source.ts, and StaleJobRecovery.runOnce of
-- src/application/workers/stale-job-recovery.ts.
pub mod Bounds
use roam_content_engine.Prelude.{
  ℕ, ◌+◌, String, Bool, true, false, Option, none, some, List, [], ◌∷◌, ◌&&◌, ltb, leb, holds,
  is_some, take, select, if◌then◌else◌,
}
use roam_content_engine.Json.{Json, null, text, number, object, field, end}
use roam_content_engine.Db.{
  Db, ◌>>=◌, ◌>>◌, pure, query, transaction, translating, find_first, order_by, now,
}
use roam_content_engine.Retry.{RetryPolicyConfig, calculate_retry_delay_ms}
use roam_content_engine.Content.Types.{
  ContentJobRow, ContentJob, ContentJobStatus, JobEventType, WorkerLeasedJob, Tables, same_status,
}
use roam_content_engine.Content.Results.{Externals}
use roam_content_engine.Content.Statements.{update_jobs, insert_event, logged, names_job}
use roam_content_engine.Content.Source.{is_stale, recovery, map_worker_leased_job}

-- `orderBy(leaseExpiresAt)`, ascending, `null` last
unfoldable pub expiry_order : ContentJobRow → ContentJobRow → Bool
expiry_order a b = elim a.lease_expires_at [
  | none ↦ false
  | some t ↦ elim b.lease_expires_at [ none ↦ true | some u ↦ leb t u ]
]

module _ (x : Externals) where
  -- `.map(mapWorkerLeasedJob)`; the first row that is not well-formed throws
  unfoldable pub map_all : List ContentJobRow → Db Tables (List WorkerLeasedJob)
  map_all [] = pure []
  map_all (row ∷ rows) = do
    job ← map_worker_leased_job x row
    jobs ← map_all rows
    pure (job ∷ jobs)

  unfoldable pub list_stale_processing_jobs : ℕ → ℕ → Db Tables (List WorkerLeasedJob)
  unfolding expiry_order map_all
  list_stale_processing_jobs at limit = translating "Unable to list stale processing jobs." do
    rows ← query λ t _. take limit (order_by expiry_order (select (is_stale at) t.content_jobs))
    map_all (select (λ r. is_some r.lease_expires_at) rows)

  module _ (tenant_id job_id : String) (max_attempts attempt_at at : ℕ) where
    abbrev pub is_stale_job : ContentJobRow → Bool
    is_stale_job r = names_job tenant_id job_id r && is_stale at r

    -- the rest of `recoverStaleJob`, once the stale row is read
    unfoldable pub recover_found : Option ContentJobRow → Db Tables (Option ContentJob)
    recover_found none = pure none
    recover_found (some stale) = do
      let exhausted = leb max_attempts stale.attempt_count
      updated ← update_jobs is_stale_job (recovery exhausted attempt_at at)
      logged x
          (λ r.
            insert_event tenant_id job_id JobEventType.job_lease_expired
              (some ContentJobStatus.processing)
              (some (if exhausted then ContentJobStatus.failed else ContentJobStatus.retrying))
              (some (
                object (
                  field "attemptCount" (number r.attempt_count) (
                    field "nextAttemptAt" (if exhausted then null else text (x.iso attempt_at))
                      end))))
              at)
          updated

    unfoldable pub recover_stale_job : Db Tables (Option ContentJob)
    unfolding recover_found
    recover_stale_job = translating "Unable to recover stale processing job." (
        transaction
          do stale ← query λ t _. find_first is_stale_job t.content_jobs; recover_found stale)

-- What StaleJobRecovery is given; `random` is what `random()` returns in each round.
pub record RecoveryConfig : Type 0 where
  pub max_attempts : ℕ
  pub retry_policy : RetryPolicyConfig
  pub random : ℕ → ℕ

module _ (x : Externals) (config : RecoveryConfig) where
  -- the loop over the stale jobs, from the given round on: how many were recovered
  unfoldable pub recover_all : ℕ → ℕ → List WorkerLeasedJob → Db Tables ℕ
  recover_all at round [] = pure 0
  recover_all at round (stale ∷ rest) = do
    let delay_ms =
        calculate_retry_delay_ms (stale.base.attempt_count + 1) config.retry_policy
          (config.random round)
    updated ←
        recover_stale_job x stale.base.tenant_id stale.base.id config.max_attempts (at + delay_ms)
          at
    others ← recover_all at (round + 1) rest
    pure (if is_some updated then others + 1 else others)

  unfoldable pub run_once : ℕ → Db Tables ℕ
  unfolding recover_all
  run_once limit = do
    at ← now
    stale_jobs ← list_stale_processing_jobs x at limit
    recover_all at 0 stale_jobs
