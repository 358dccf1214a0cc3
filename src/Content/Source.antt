-- ===== src/Content/Source.antt =====
-- DatabaseJobSource (src/infrastructure/workers/database-job-source.ts): how a worker takes the
-- next content job, keeps it and gives it up, and how stale jobs are recovered.
pub mod Settled
pub mod Queue
use roam_content_engine.Prelude.{
  ℕ, ◌+◌, String, Bool, true, false, Option, none, some, List, [], ◌∷◌, ◌&&◌, ◌||◌, ltb, leb, holds,
  not, is_some, is_empty, coalesce, head?, take, select, str_eq, if◌then◌else◌,
}
use roam_content_engine.Errors.{conflict}
use roam_content_engine.Json.{Json, null, text, number, object, field, end}
use roam_content_engine.Db.{
  Db, ◌>>=◌, ◌>>◌, pure, throw, query, transaction, translating, find_first, order_by,
}
use roam_content_engine.Content.Types.{
  ContentJobRow, ContentJob, ContentJobStatus, ContentJobStage, JobEventType, WorkerLeasedJob,
  Tables, same_status,
}
use roam_content_engine.Content.Results.{Externals}
use roam_content_engine.Content.Statements.{
  update_jobs, insert_event, map_content_job, logged, names_job, is_free,
}

-- Who calls a method, on which job, and when.
pub record Caller : Type 0 where
  pub tenant_id : String
  pub job_id : String
  pub worker_id : String
  pub now : ℕ

-- The job is being processed by this worker, under a lease that has not expired.
abbrev pub holds_lease : Caller → ContentJobRow → Bool
holds_lease c r =
    names_job c.tenant_id c.job_id r
    && same_status r.status ContentJobStatus.processing
    && holds (λ o. str_eq o c.worker_id) r.lease_owner
    && holds (ltb c.now) r.lease_expires_at

-- the condition of the SELECT on the status and the dates of a row
unfoldable pub is_due : ℕ → ContentJobStatus → ContentJobRow → Bool
is_due now ContentJobStatus.queued r = true
is_due now ContentJobStatus.retrying r = holds (λ t. leb t now) r.next_attempt_at
is_due now _ r = false

unfoldable pub is_candidate : ℕ → ContentJobRow → Bool
unfolding is_due
is_candidate now r = is_due now r.status r && is_free now r

-- `order by created_at asc`
abbrev pub age_order : ContentJobRow → ContentJobRow → Bool
age_order a b = leb a.created_at b.created_at

-- the row that the SELECT returns; `for update skip locked` passes over the locked ones
unfoldable pub next_candidate : ℕ → (String → Bool) → Tables → Option ContentJobRow
next_candidate now locked t =
    head?
      (order_by age_order (select (λ r. is_candidate now r && not (locked r.id)) t.content_jobs))

-- What each method assigns.
abbrev pub acquired : String → ℕ → ℕ → ContentJobRow → ContentJobRow
acquired worker_id lease_duration_ms now r = record r {
  status = ContentJobStatus.processing;
  current_stage = ContentJobStage.normalizing_transcript;
  attempt_count = r.attempt_count + 1;
  started_at = some (coalesce r.started_at now);
  lease_owner = some worker_id;
  lease_expires_at = some (now + lease_duration_ms);
  heartbeat_at = some now;
  updated_at = now;
}

abbrev pub renewed : ℕ → ℕ → ContentJobRow → ContentJobRow
renewed lease_duration_ms now r = record r {
  lease_expires_at = some (now + lease_duration_ms);
  heartbeat_at = some now;
  updated_at = now;
}

abbrev pub staged : ContentJobStage → ℕ → ContentJobRow → ContentJobRow
staged stage now r = record r { current_stage = stage; updated_at = now }

-- the assignments that give a lease up
abbrev pub release : ℕ → ContentJobRow → ContentJobRow
release now r = record r {
  lease_owner = none;
  lease_expires_at = none;
  heartbeat_at = none;
  updated_at = now;
}

abbrev pub done : Option Json → ℕ → ContentJobRow → ContentJobRow
done result now r = release now (record r {
  status = ContentJobStatus.completed;
  current_stage = ContentJobStage.completed;
  result = result;
  completed_at = some now;
  error_code = none;
  error_message = none;
  next_attempt_at = none;
})

abbrev pub to_retry : String → String → ℕ → ℕ → ContentJobRow → ContentJobRow
to_retry code message attempt_at now r = release now (record r {
  status = ContentJobStatus.retrying;
  current_stage = ContentJobStage.failed;
  error_code = some code;
  error_message = some message;
  result = none;
  completed_at = none;
  next_attempt_at = some attempt_at;
})

abbrev pub given_up : String → String → ℕ → ContentJobRow → ContentJobRow
given_up code message now r = release now (record r {
  status = ContentJobStatus.failed;
  current_stage = ContentJobStage.failed;
  error_code = some code;
  error_message = some message;
  result = none;
  completed_at = some now;
  next_attempt_at = none;
})

-- `eq(status, 'processing')` and `lte(leaseExpiresAt, now)`
abbrev pub is_stale : ℕ → ContentJobRow → Bool
is_stale now r =
    same_status r.status ContentJobStatus.processing && holds (λ t. leb t now) r.lease_expires_at

-- what the recovery assigns, by whether the attempts of the stale row are used up
abbrev pub recovery : Bool → ℕ → ℕ → ContentJobRow → ContentJobRow
recovery exhausted attempt_at now r = release now (
    if exhausted
    then (record r {
      status = ContentJobStatus.failed;
      current_stage = ContentJobStage.failed;
      error_code = some "WORKER_MAX_ATTEMPTS_EXCEEDED";
      error_message = some "Job exceeded max worker attempts after lease expiration.";
      completed_at = some now;
      next_attempt_at = none;
    })
    else (record r {
      status = ContentJobStatus.retrying;
      current_stage = ContentJobStage.failed;
      error_code = some "WORKER_LEASE_EXPIRED";
      error_message = some "Job lease expired while processing.";
      completed_at = none;
      next_attempt_at = some attempt_at;
    }))

-- a text column that is set and not empty
abbrev pub is_set : Option String → Bool
is_set o = holds (λ s. not (is_empty s)) o

module _ (x : Externals) where
  unfoldable pub leased_job :
      ContentJobRow → Option String → Option ℕ → Option ℕ → Db Tables WorkerLeasedJob
  leased_job row (some owner) (some expires_at) (some heartbeat_at) = do
    base ← map_content_job x row
    pure (record {
      base = base;
      lease_owner = owner;
      lease_expires_at = expires_at;
      heartbeat_at = heartbeat_at;
      next_attempt_at = row.next_attempt_at;
    })
  leased_job row _ _ _ =
      throw (conflict "INVALID_WORKFLOW_STATE" "Leased job row is missing lease metadata.")

  -- `mapWorkerLeasedJob`
  unfoldable pub map_worker_leased_job : ContentJobRow → Db Tables WorkerLeasedJob
  unfolding leased_job
  map_worker_leased_job row =
      if is_set row.lease_owner
      then leased_job row row.lease_owner row.lease_expires_at row.heartbeat_at
      else throw (conflict "INVALID_WORKFLOW_STATE" "Leased job row is missing lease metadata.")

  -- `row ? mapWorkerLeasedJob(row) : null`
  unfoldable pub map_optional_leased : Option ContentJobRow → Db Tables (Option WorkerLeasedJob)
  map_optional_leased none = pure none
  map_optional_leased (some row) = do job ← map_worker_leased_job row; pure (some job)

  -- the UPDATE's row, once it is there
  unfoldable pub acquired_row :
      String → ℕ → ContentJobStatus → Option ContentJobRow → Db Tables (Option WorkerLeasedJob)
  acquired_row worker_id now prior none = pure none
  acquired_row worker_id now prior (some updated) = do
    insert_event updated.tenant_id updated.id JobEventType.job_lease_acquired (some prior)
        (some ContentJobStatus.processing)
        (some (
          object (
            field "workerId" (text worker_id)
              (field "attemptCount" (number updated.attempt_count) end))))
        now
    map_optional_leased (some updated)

  -- the rest of `acquireNext`, once a candidate is read
  unfoldable pub acquire_candidate :
      String → ℕ → ℕ → Option ContentJobRow → Db Tables (Option WorkerLeasedJob)
  unfolding acquired_row
  acquire_candidate worker_id lease_duration_ms now none = pure none
  acquire_candidate worker_id lease_duration_ms now (some candidate) = do
    updated ←
        update_jobs (λ r. str_eq r.id candidate.id && same_status r.status candidate.status)
          (acquired worker_id lease_duration_ms now)
    acquired_row worker_id now candidate.status updated

  unfoldable pub acquire_next : String → ℕ → ℕ → Db Tables (Option WorkerLeasedJob)
  unfolding next_candidate acquire_candidate
  acquire_next worker_id lease_duration_ms now = translating "Unable to acquire next job." (
      transaction do
        candidate ← query λ t locked. next_candidate now locked t
        acquire_candidate worker_id lease_duration_ms now candidate)

  module _ (c : Caller) where
    unfoldable pub renew_lease : ℕ → Db Tables (Option WorkerLeasedJob)
    renew_lease lease_duration_ms = translating "Unable to renew job lease." do
      updated ← update_jobs (holds_lease c) (renewed lease_duration_ms c.now)
      map_optional_leased updated

    unfoldable pub mark_stage : ContentJobStage → Db Tables (Option WorkerLeasedJob)
    mark_stage stage =
        translating "Unable to update job stage."
          do updated ← update_jobs (holds_lease c) (staged stage c.now); map_optional_leased updated

    -- the event of a method that gives the job up
    abbrev log_event :
        JobEventType
        → ContentJobStatus
        → (ContentJobRow → Json)
        → ContentJobRow
        → Db Tables (Unit {0})
    log_event type new details r =
        insert_event c.tenant_id c.job_id type (some ContentJobStatus.processing) (some new)
          (some (details r)) c.now

    unfoldable pub mark_completed : Option Json → Db Tables (Option ContentJob)
    mark_completed result = translating "Unable to mark job completed." (
        transaction do
          updated ← update_jobs (holds_lease c) (done result c.now)
          logged x
              (log_event JobEventType.job_completed ContentJobStatus.completed (λ r. object (
                field "workerId" (text c.worker_id)
                  (field "attemptCount" (number r.attempt_count) end))))
              updated)

    unfoldable pub schedule_retry : String → String → ℕ → Db Tables (Option ContentJob)
    schedule_retry error_code error_message attempt_at =
        translating "Unable to schedule job retry." (
          transaction do
            updated ←
                update_jobs (holds_lease c) (to_retry error_code error_message attempt_at c.now)
            logged x
                (log_event JobEventType.job_retry_scheduled ContentJobStatus.retrying (λ r. object (
                  field "workerId" (text c.worker_id) (
                    field "attemptCount" (number r.attempt_count) (
                      field "errorCode" (text error_code)
                        (field "nextAttemptAt" (text (x.iso attempt_at)) end))))))
                updated)

    unfoldable pub mark_failed : String → String → Db Tables (Option ContentJob)
    mark_failed error_code error_message = translating "Unable to mark job failed." (
        transaction do
          updated ← update_jobs (holds_lease c) (given_up error_code error_message c.now)
          logged x
              (log_event JobEventType.job_failed ContentJobStatus.failed (λ r. object (
                field "workerId" (text c.worker_id) (
                  field "attemptCount" (number r.attempt_count)
                    (field "errorCode" (text error_code) end)))))
              updated)
