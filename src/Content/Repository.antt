-- ===== src/Content/Repository.antt =====
-- DrizzleContentJobRepository (src/infrastructure/repositories/drizzle-content-job-repository.ts):
-- the methods on a job that exists. They name no worker; of them the API calls getById and cancel.

use roam_content_engine.Prelude.{
  ℕ, ◌+◌, String, Bool, true, false, Option, none, some, ◌&&◌, coalesce, str_eq, if◌then◌else◌,
}
use roam_content_engine.Errors.{validation, conflict, not_found}
use roam_content_engine.Json.{Json, text, object, field, end}
use roam_content_engine.Db.{
  Db, ◌>>=◌, ◌>>◌, pure, throw, query, transaction, translating, ensure_non_empty, find_first, now,
}
use roam_content_engine.Content.Types.{
  ContentJobRow, ContentJob, ContentJobStatus, ContentJobStage, JobEventType,
  TranscriptProcessingResult, Tables, same_status, is_prefixed_id,
}
use roam_content_engine.Content.Transitions.{assert_transition_allowed}
use roam_content_engine.Content.Results.{Externals, parse_result, result_json}
use roam_content_engine.Content.Statements.{
  update_jobs, insert_event, map_content_job, map_optional, names_job,
}

-- `if (!condition) throw new ValidationError(message)`
unfoldable pub require : Bool → String → Db Tables (Unit {0})
require condition message = if condition then pure tt else throw (validation message)

-- `validateTenantAndJobIds`
unfoldable pub validate_tenant_and_job_ids : String → String → Db Tables (Unit {0})
unfolding require is_prefixed_id
validate_tenant_and_job_ids tenant_id job_id = do
  require (is_prefixed_id tenant_id "tenant") "Invalid tenant ID."
  require (is_prefixed_id job_id "job") "Invalid content job ID."

-- `inArray(contentJobs.status, ['queued', 'retrying'])`
unfoldable pub is_waiting : ContentJobStatus → Bool
is_waiting ContentJobStatus.queued = true
is_waiting ContentJobStatus.retrying = true
is_waiting _ = false

-- the row is named, and its status is still the one that was read
abbrev pub is_still : String → String → ContentJobStatus → ContentJobRow → Bool
is_still tenant_id job_id status r = names_job tenant_id job_id r && same_status r.status status

-- What the methods assign; `transitioned` over the values that are given.
abbrev pub claimed : ℕ → ContentJobRow → ContentJobRow
claimed at r = record r {
  status = ContentJobStatus.processing;
  current_stage = ContentJobStage.normalizing_transcript;
  started_at = some (coalesce r.started_at at);
  attempt_count = r.attempt_count + 1;
  updated_at = at;
}

abbrev pub transitioned : ContentJobStatus → ContentJobStage → ℕ → ContentJobRow → ContentJobRow
transitioned status stage at r = record r {
  status = status;
  current_stage = stage;
  updated_at = at;
}

abbrev pub with_result : Json → ℕ → ContentJobRow → ContentJobRow
with_result result at r = record r {
  result = some result;
  completed_at = some at;
  error_code = none;
  error_message = none;
}

abbrev pub with_error : String → String → Option ℕ → ContentJobRow → ContentJobRow
with_error code message completed_at r = record r {
  error_code = some code;
  error_message = some message;
  result = none;
  completed_at = completed_at;
}

abbrev pub without_result : ℕ → ContentJobRow → ContentJobRow
without_result at r = record r { completed_at = some at; result = none }

module _ (x : Externals) (tenant_id job_id : String) where
  unfoldable pub get_by_id : Db Tables (Option ContentJob)
  unfolding validate_tenant_and_job_ids
  get_by_id = do
    validate_tenant_and_job_ids tenant_id job_id
    translating "Unable to fetch content job by ID." do
      row ← query λ t _. find_first (names_job tenant_id job_id) t.content_jobs
      map_optional x row

  -- the rest of `claim` behind its UPDATE
  unfoldable pub claimed_row : ContentJobStatus → Option ContentJobRow → Db Tables ContentJob
  claimed_row prior none = throw (conflict "JOB_NOT_CLAIMABLE" "Job is not claimable.")
  claimed_row prior (some updated) = do
    at ← now
    insert_event tenant_id job_id JobEventType.job_claimed (some prior)
        (some ContentJobStatus.processing)
        (some (object (field "stage" (text "normalizing-transcript") end))) at
    map_content_job x updated

  -- … and behind its SELECT; SQL's `now()` is one time for both columns
  unfoldable pub claim_current : Option ContentJobRow → Db Tables ContentJob
  unfolding claimed_row
  claim_current none = throw (conflict "JOB_NOT_CLAIMABLE" "Job is not claimable.")
  claim_current (some current) = do
    at ← now
    updated ← update_jobs (is_still tenant_id job_id current.status) (claimed at)
    claimed_row current.status updated

  unfoldable pub claim : Db Tables ContentJob
  unfolding validate_tenant_and_job_ids claim_current is_waiting
  claim = do
    validate_tenant_and_job_ids tenant_id job_id
    translating "Unable to claim content job." (
        transaction do
          current ← query λ t _.
              find_first (λ r. names_job tenant_id job_id r && is_waiting r.status) t.content_jobs
          claim_current current)

  unfoldable pub staged_row : Option ContentJobRow → Db Tables ContentJob
  staged_row none =
      throw (conflict "INVALID_WORKFLOW_STATE" "Only processing jobs can update stage.")
  staged_row (some updated) = map_content_job x updated

  unfoldable pub mark_stage : ContentJobStage → Db Tables ContentJob
  unfolding validate_tenant_and_job_ids staged_row
  mark_stage stage = do
    validate_tenant_and_job_ids tenant_id job_id
    translating "Unable to update content job stage." do
      at ← now
      updated ←
          update_jobs (is_still tenant_id job_id ContentJobStatus.processing)
            (λ r. record r { current_stage = stage; updated_at = at })
      staged_row updated

  module _ (target : ContentJobStatus) (stage : ContentJobStage) (type : JobEventType)
      (details : Option Json) (set_values : ContentJobRow → ContentJobRow)
      (before_update : ContentJob → Db Tables (Unit {0})) where
    -- `transitionWithEvent` behind its UPDATE
    unfoldable pub transitioned_row : ContentJobStatus → Option ContentJobRow → Db Tables ContentJob
    transitioned_row prior none =
        throw
          (conflict "INVALID_WORKFLOW_STATE" "Job state changed concurrently; transition aborted.")
    transitioned_row prior (some updated) = do
      at ← now
      insert_event tenant_id job_id type (some prior) (some target) details at
      map_content_job x updated

    -- … and behind its SELECT
    unfoldable pub transition_current : Option ContentJobRow → Db Tables ContentJob
    unfolding transitioned_row
    transition_current none = throw (not_found "Content job was not found.")
    transition_current (some row) = do
      current ← map_content_job x row
      before_update current
      assert_transition_allowed current.status target
      at ← now
      updated ←
          update_jobs (is_still tenant_id job_id current.status)
            (λ r. transitioned target stage at (set_values r))
      transitioned_row current.status updated

    unfoldable pub transition_with_event : Db Tables ContentJob
    unfolding validate_tenant_and_job_ids transition_current
    transition_with_event = do
      validate_tenant_and_job_ids tenant_id job_id
      translating "Unable to transition content job." (
          transaction do
            row ← query λ t _. find_first (names_job tenant_id job_id) t.content_jobs
            transition_current row)

  -- the check of `complete` on the row's version
  abbrev pub same_source : TranscriptProcessingResult → ContentJob → Db Tables (Unit {0})
  same_source result job =
      if str_eq job.source_version_id result.source_version_id
      then pure tt
      else throw (
          conflict "TRANSCRIPT_HASH_MISMATCH"
            "Result source version does not match job source version.")

  unfoldable pub complete_parsed : Option TranscriptProcessingResult → Db Tables ContentJob
  complete_parsed none = throw (validation "Invalid transcript processing result.")
  complete_parsed (some result) = do
    at ← now
    transition_with_event ContentJobStatus.completed ContentJobStage.completed
        JobEventType.job_completed (some (result_json result)) (with_result (result_json result) at)
        (same_source result)

  unfoldable pub complete : Json → Db Tables ContentJob
  unfolding complete_parsed
  complete result = complete_parsed (parse_result x result)

  abbrev error_details : String → String → Option Json
  error_details code message =
      some (object (field "errorCode" (text code) (field "errorMessage" (text message) end)))

  unfoldable pub schedule_retry : String → String → Db Tables ContentJob
  schedule_retry error_code error_message = do
    code ← ensure_non_empty error_code "errorCode"
    message ← ensure_non_empty error_message "errorMessage"
    transition_with_event ContentJobStatus.retrying ContentJobStage.failed
        JobEventType.job_retry_scheduled (error_details code message) (with_error code message none)
        (λ _. pure tt)

  unfoldable pub fail : String → String → Db Tables ContentJob
  fail error_code error_message = do
    code ← ensure_non_empty error_code "errorCode"
    message ← ensure_non_empty error_message "errorMessage"
    at ← now
    transition_with_event ContentJobStatus.failed ContentJobStage.failed JobEventType.job_failed
        (error_details code message) (with_error code message (some at)) (λ _. pure tt)

  unfoldable pub cancel : Db Tables ContentJob
  cancel = do
    at ← now
    transition_with_event ContentJobStatus.cancelled ContentJobStage.failed
        JobEventType.job_cancelled none (without_result at) (λ _. pure tt)
