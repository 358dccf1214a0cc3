-- ===== src/Publish/Repository/Recovery.antt =====
-- DrizzlePublishJobRepository.recoverStaleLeases: jobs whose worker let the lease run out.
use roam_content_engine.Prelude.{
  ℕ, ◌+◌, String, Bool, true, false, Option, none, some, List, [], ◌∷◌, ◌&&◌, ◌||◌, ltb, leb, ◌==◌,
  holds, is_empty, if◌then◌else◌, select, take, str_eq, not,
}
use roam_content_engine.Db.{Db, ◌>>=◌, ◌>>◌, pure, query, transaction, translating, order_by}
use roam_content_engine.Publish.Types.{
  PublishJob, PublishJobStatus, PublishJobStage, PublishJobEventType, Detail, null, number, date,
  flag, Tables, same_status,
}
use roam_content_engine.Publish.Statements.{update_jobs, insert_event, release, unschedule}
use roam_content_engine.Publish.Repository.Settle.{or_null}

-- `eq(status, 'processing')` and `lte(leaseExpiresAt, now)`
abbrev pub is_stale : ℕ → PublishJob → Bool
is_stale now r =
    same_status r.status PublishJobStatus.processing && holds (λ t. leb t now) r.lease_expires_at

-- `orderBy(asc(leaseExpiresAt), asc(createdAt))`; every row that is selected has an expiry
unfoldable pub expiry_order : PublishJob → PublishJob → Bool
expiry_order a b = elim a.lease_expires_at [
  | none ↦ false
  | some s ↦ elim b.lease_expires_at [
    | none ↦ true
    | some t ↦ ltb s t || (s == t && leb a.created_at b.created_at)
  ]
]

-- a string column that JavaScript finds truthy
abbrev pub is_truthy : Option String → Bool
is_truthy none = false
is_truthy (some s) = not (is_empty s)

-- the two objects that the UPDATE may set, by the row that was read
abbrev pub exhausted : PublishJob → ℕ → PublishJob → PublishJob
exhausted stale now r = release now (
    unschedule (record r {
      status = PublishJobStatus.failed;
      stage = PublishJobStage.failed;
      remote_error_code = some "PUBLISH_JOB_RETRY_EXHAUSTED";
      remote_error_message =
          some "Publish job lease expired repeatedly and exceeded recovery threshold.";
      completed_at = some now;
      consecutive_failure_count = stale.consecutive_failure_count + 1;
    }))

abbrev pub recovered : PublishJob → ℕ → ℕ → PublishJob → PublishJob
recovered stale retry_at now r = release now (record r {
  status =
      if is_truthy stale.remote_job_id then PublishJobStatus.waiting else PublishJobStatus.retrying;
  stage =
      if is_truthy stale.remote_job_id
      then PublishJobStage.waiting_for_remote
      else PublishJobStage.failed;
  remote_error_code = some "PUBLISH_JOB_LEASE_MISMATCH";
  remote_error_message = some "Publish job lease expired and was recovered.";
  next_attempt_at = if is_truthy stale.remote_job_id then none else some retry_at;
  next_poll_at = if is_truthy stale.remote_job_id then some retry_at else none;
  consecutive_failure_count = stale.consecutive_failure_count + 1;
})

module _ (now max_consecutive_failures retry_delay_ms : ℕ) where
  abbrev pub should_fail : PublishJob → Bool
  should_fail stale = leb max_consecutive_failures (stale.consecutive_failure_count + 1)

  -- one of the two, as the row's failures decide
  abbrev pub recovery : PublishJob → PublishJob → PublishJob
  recovery stale r =
      if should_fail stale
      then exhausted stale now r
      else recovered stale (now + retry_delay_ms) now r

  abbrev recovery_details : PublishJob → PublishJob → List (String × Detail)
  recovery_details stale updated =
      ("recoveredAt", date now)
      ∷ (
        "nextAttemptAt",
        if should_fail stale || same_status updated.status PublishJobStatus.waiting
            then null
            else date (now + retry_delay_ms),
      )
      ∷ (
        "nextPollAt",
        if same_status updated.status PublishJobStatus.waiting
            then date (now + retry_delay_ms)
            else null,
      )
      ∷ ("consecutiveFailureCount", number (stale.consecutive_failure_count + 1))
      ∷ ("terminalFailure", flag (should_fail stale))
      ∷ ("preservedRemoteJobId", or_null stale.remote_job_id)
      ∷ []

  -- the rest of a round: 1 if the row was still stale
  unfoldable pub recovered_row : PublishJob → Option PublishJob → Db Tables ℕ
  recovered_row stale none = pure 0
  recovered_row stale (some updated) = do
    insert_event updated PublishJobEventType.publish_lease_expired
        (some PublishJobStatus.processing) (some updated.status)
        (some (recovery_details stale updated)) now
    pure 1

  -- the loop over the stale rows, with `recoveredCount`
  unfoldable pub recover_rows : ℕ → List PublishJob → Db Tables ℕ
  unfolding recovered_row
  recover_rows count [] = pure count
  recover_rows count (stale ∷ rest) = do
    updated ← update_jobs (λ r. str_eq r.id stale.id && is_stale now r) (recovery stale)
    n ← recovered_row stale updated
    recover_rows (count + n) rest

  unfoldable pub recover_stale_leases : ℕ → Db Tables ℕ
  unfolding expiry_order recover_rows
  recover_stale_leases limit = translating "Unable to recover stale publish job leases." (
      transaction do
        stale_rows ←
            query λ t _. take limit (order_by expiry_order (select (is_stale now) t.publish_jobs))
        recover_rows 0 stale_rows)
