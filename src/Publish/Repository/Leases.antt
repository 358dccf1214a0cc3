-- ===== src/Publish/Repository/Leases.antt =====
-- The methods of DrizzlePublishJobRepository that take and keep a lease: claimNextDue, heartbeat
-- and setStage; and getById.
use roam_content_engine.Prelude.{
  ℕ, ◌+◌, String, Bool, true, false, Option, none, some, [], ◌∷◌, ◌&&◌, ◌||◌, ltb, leb, ◌==◌, holds,
  is_none, if◌then◌else◌, head?, select, str_eq,
}
use roam_content_engine.Errors.{validation}
use roam_content_engine.Db.{
  Db, ◌>>=◌, ◌>>◌, pure, throw, query, transaction, translating, ensure_non_empty, find_first,
  order_by,
}
use roam_content_engine.Publish.Types.{
  PublishJob, PublishJobStatus, PublishJobStage, PublishJobEventType, text, date, a_stage, Tables,
  same_status, is_tenant_id,
}
use roam_content_engine.Publish.Statements.{
  Caller, update_jobs, insert_event, logged, names_job, is_owner, is_free,
}

-- `validateTenantId`
unfoldable pub validate_tenant_id : String → Db Tables (Unit {0})
validate_tenant_id tenant_id =
    if is_tenant_id tenant_id then pure tt else throw (validation "Invalid tenant ID.")

unfoldable pub get_by_id : String → String → Db Tables (Option PublishJob)
unfolding validate_tenant_id
get_by_id tenant_id job_id = do
  validate_tenant_id tenant_id
  translating "Unable to fetch publish job by ID."
      (query λ t _. find_first (names_job tenant_id job_id) t.publish_jobs)

-- `inArray(publishJobs.status, ['queued', 'retrying', 'waiting'])`
unfoldable pub is_open : PublishJobStatus → Bool
is_open PublishJobStatus.queued = true
is_open PublishJobStatus.retrying = true
is_open PublishJobStatus.waiting = true
is_open _ = false

-- the condition of the SELECT in `claimNextDue`
unfoldable pub is_claimable : ℕ → PublishJob → Bool
unfolding is_open
is_claimable now r =
    is_open r.status
    && is_none r.cancelled_at
    && is_none r.completed_at
    && (holds (λ t. leb t now) r.next_attempt_at
        || (is_none r.next_attempt_at && holds (λ t. leb t now) r.next_poll_at))
    && is_free now r

-- ascending order on a nullable column, `null` last, as PostgreSQL has it: strictly before, and equal
abbrev earlier : Option ℕ → Option ℕ → Bool
earlier none _ = false
earlier (some a) none = true
earlier (some a) (some b) = ltb a b

abbrev as_early : Option ℕ → Option ℕ → Bool
as_early none none = true
as_early (some a) (some b) = a == b
as_early _ _ = false

-- `orderBy: [asc(nextAttemptAt), asc(nextPollAt), asc(createdAt)]`
unfoldable pub claim_order : PublishJob → PublishJob → Bool
claim_order a b =
    earlier a.next_attempt_at b.next_attempt_at
    || (as_early a.next_attempt_at b.next_attempt_at
        && (earlier a.next_poll_at b.next_poll_at
            || (as_early a.next_poll_at b.next_poll_at && leb a.created_at b.created_at)))

-- what a claim assigns
abbrev pub claimed : String → ℕ → ℕ → PublishJob → PublishJob
claimed worker_id lease_duration_ms now r = record r {
  status = PublishJobStatus.processing;
  lease_owner = some worker_id;
  lease_expires_at = some (now + lease_duration_ms);
  heartbeat_at = some now;
  attempt_count = r.attempt_count + 1;
  updated_at = now;
}

-- the row is still as the candidate was
abbrev pub is_still : PublishJob → ℕ → PublishJob → Bool
is_still candidate now r =
    str_eq r.id candidate.id && same_status r.status candidate.status && is_free now r

-- what is left of a claim once a candidate is read
unfoldable pub claim_candidate :
    (PublishJob → Bool) → String → ℕ → ℕ → Option PublishJob → Db Tables (Option PublishJob)
claim_candidate extra worker_id lease_duration_ms now none = pure none
claim_candidate extra worker_id lease_duration_ms now (some candidate) = do
  updated ←
      update_jobs (λ r. is_still candidate now r && extra r)
        (claimed worker_id lease_duration_ms now)
  logged
      (λ r.
        insert_event r PublishJobEventType.publish_job_claimed (some candidate.status)
          (some r.status)
          (some (
            ("workerId", text worker_id) ∷ ("leaseExpiresAt", date (now + lease_duration_ms)) ∷ []))
          now)
      updated

unfoldable pub claim_next_due : String → ℕ → ℕ → Db Tables (Option PublishJob)
unfolding claim_order claim_candidate
claim_next_due worker lease_duration_ms now = do
  worker_id ← ensure_non_empty worker "workerId"
  translating "Unable to claim next publish job." (
      transaction do
        candidate ←
            query λ t _. head? (order_by claim_order (select (is_claimable now) t.publish_jobs))
        claim_candidate (λ _. true) worker_id lease_duration_ms now candidate)

-- `or(isNull(leaseExpiresAt), gte(leaseExpiresAt, now))`
abbrev pub not_expired : ℕ → PublishJob → Bool
not_expired now r = is_none r.lease_expires_at || holds (leb now) r.lease_expires_at

-- what a renewal assigns
abbrev pub renewed : ℕ → ℕ → PublishJob → PublishJob
renewed lease_duration_ms now r = record r {
  lease_expires_at = some (now + lease_duration_ms);
  heartbeat_at = some now;
  updated_at = now;
}

module _ (c : Caller) where
  unfoldable pub heartbeat : ℕ → Db Tables (Option PublishJob)
  heartbeat lease_duration_ms = do
    worker_id ← ensure_non_empty c.worker_id "workerId"
    translating "Unable to heartbeat publish job lease." (
        update_jobs (λ r. is_owner c worker_id r && not_expired c.now r)
          (renewed lease_duration_ms c.now))

  -- behind the SELECT of `setStage`; the UPDATE names the row again
  unfoldable pub stage_current :
      String → PublishJobStage → Option PublishJob → Db Tables (Option PublishJob)
  stage_current worker_id stage none = pure none
  stage_current worker_id stage (some current) = do
    updated ←
        update_jobs
          (is_owner (record c { tenant_id = current.tenant_id; publish_job_id = current.id })
            worker_id)
          (λ r. record r { stage = stage; updated_at = c.now })
    logged
        (λ r.
          insert_event r PublishJobEventType.publish_status_polled (some current.status)
            (some r.status)
            (some (("priorStage", a_stage current.stage) ∷ ("newStage", a_stage r.stage) ∷ []))
            c.now)
        updated

  unfoldable pub set_stage : PublishJobStage → Db Tables (Option PublishJob)
  unfolding stage_current
  set_stage stage = do
    worker_id ← ensure_non_empty c.worker_id "workerId"
    translating "Unable to update publish job stage." (
        transaction do
          current ← query λ t _. find_first (is_owner c worker_id) t.publish_jobs
          stage_current worker_id stage current)
