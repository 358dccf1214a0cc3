-- ===== src/Publish/Repository/Settle.antt =====
-- The methods of DrizzlePublishJobRepository by which a worker gives a job up: recordSubmission,
-- recordRemoteWaiting, recordRetry, complete, fail and markRemoteCancelled.
-- None of them runs in a transaction. `mapPublishJob` returns the row's fields unchanged.
use roam_content_engine.Prelude.{ℕ, ◌+◌, String, Option, none, some, [], ◌∷◌}
use roam_content_engine.Db.{Db, ◌>>=◌, ◌>>◌, translating, ensure_non_empty}
use roam_content_engine.Publish.Types.{
  PublishJob, PublishJobStatus, PublishJobStage, PublishJobEventType, PublishDownloadMetadata,
  Detail, null, text, date, Tables,
}
use roam_content_engine.Publish.Statements.{
  Caller, update_jobs, insert_event, logged, holds_lease, release, unschedule,
}

abbrev pub or_null : Option String → Detail
or_null none = null
or_null (some s) = text s

abbrev pub date_or_null : Option ℕ → Detail
date_or_null none = null
date_or_null (some t) = date t

-- `input.lastPolledAt ? pollCount + 1 : pollCount` and `input.lastPolledAt ?? lastPolledAt`
abbrev pub count_poll : Option ℕ → PublishJob → PublishJob
count_poll none r = r
count_poll (some t) r = record r { poll_count = r.poll_count + 1; last_polled_at = some t }

-- What each method assigns.
abbrev pub submitted : String → String → Option String → ℕ → ℕ → ℕ → PublishJob → PublishJob
submitted job_id state correlation at poll_at now r = release now (record r {
  status = PublishJobStatus.waiting;
  stage = PublishJobStage.waiting_for_remote;
  remote_job_id = some job_id;
  remote_state = some state;
  remote_correlation_id = correlation;
  submitted_at = some at;
  next_poll_at = some poll_at;
  next_attempt_at = none;
  consecutive_failure_count = 0;
  last_polled_at = none;
})

abbrev pub still_waiting : String → Option String → ℕ → ℕ → ℕ → PublishJob → PublishJob
still_waiting state correlation polled_at poll_at now r = release now (record r {
  status = PublishJobStatus.waiting;
  stage = PublishJobStage.waiting_for_remote;
  remote_state = some state;
  remote_correlation_id = correlation;
  last_polled_at = some polled_at;
  next_poll_at = some poll_at;
  next_attempt_at = none;
  consecutive_failure_count = 0;
  poll_count = r.poll_count + 1;
})

abbrev pub to_retry : String → String → ℕ → ℕ → PublishJob → PublishJob
to_retry code message attempt_at now r = release now (record r {
  status = PublishJobStatus.retrying;
  stage = PublishJobStage.failed;
  remote_error_code = some code;
  remote_error_message = some message;
  next_attempt_at = some attempt_at;
  next_poll_at = none;
  consecutive_failure_count = r.consecutive_failure_count + 1;
})

abbrev pub done :
    String → Option String → Option ℕ → PublishDownloadMetadata → ℕ → PublishJob → PublishJob
done state correlation polled_at download now r = release now (
    unschedule (
      count_poll polled_at (record r {
        status = PublishJobStatus.completed;
        stage = PublishJobStage.completed;
        remote_state = some state;
        remote_correlation_id = correlation;
        download_metadata = some download;
        consecutive_failure_count = 0;
        completed_at = some now;
      })))

abbrev pub given_up :
    String → String → Option String → Option String → Option ℕ → ℕ → PublishJob → PublishJob
given_up code message state correlation polled_at now r = release now (
    unschedule (
      count_poll polled_at (record r {
        status = PublishJobStatus.failed;
        stage = PublishJobStage.failed;
        remote_state = state;
        remote_correlation_id = correlation;
        remote_error_code = some code;
        remote_error_message = some message;
        completed_at = some now;
      })))

abbrev pub called_off : String → Option String → Option ℕ → ℕ → PublishJob → PublishJob
called_off state correlation polled_at now r = release now (
    unschedule (
      count_poll polled_at (record r {
        status = PublishJobStatus.cancelled;
        stage = PublishJobStage.cancelled;
        remote_state = some state;
        remote_correlation_id = correlation;
        cancelled_at = some now;
      })))

module _ (c : Caller) where
  unfoldable pub record_submission :
      String → String → Option String → ℕ → ℕ → Db Tables (Option PublishJob)
  record_submission remote_job_id remote_state correlation submitted_at poll_at = do
    worker_id ← ensure_non_empty c.worker_id "workerId"
    translating "Unable to record publish submission." do
      job_id ← ensure_non_empty remote_job_id "remoteJobId"
      state ← ensure_non_empty remote_state "remoteState"
      updated ←
          update_jobs (holds_lease c worker_id)
            (submitted job_id state correlation submitted_at poll_at c.now)
      logged
          (λ r. do
            insert_event r PublishJobEventType.publish_submitted (some PublishJobStatus.processing)
                (some PublishJobStatus.waiting)
                (some (
                  ("remoteJobId", or_null r.remote_job_id)
                  ∷ ("remoteState", or_null r.remote_state)
                  ∷ ("remoteCorrelationId", or_null r.remote_correlation_id)
                  ∷ []))
                c.now
            insert_event r PublishJobEventType.publish_waiting (some PublishJobStatus.waiting)
                (some PublishJobStatus.waiting)
                (some (
                  ("remoteState", or_null r.remote_state)
                  ∷ ("nextPollAt", date_or_null r.next_poll_at)
                  ∷ []))
                c.now)
          updated

  unfoldable pub record_remote_waiting :
      String → Option String → ℕ → ℕ → Db Tables (Option PublishJob)
  record_remote_waiting remote_state correlation polled_at poll_at = do
    worker_id ← ensure_non_empty c.worker_id "workerId"
    translating "Unable to record waiting publish status." do
      state ← ensure_non_empty remote_state "remoteState"
      updated ←
          update_jobs (holds_lease c worker_id)
            (still_waiting state correlation polled_at poll_at c.now)
      logged
          (λ r.
            insert_event r PublishJobEventType.publish_waiting (some PublishJobStatus.processing)
              (some PublishJobStatus.waiting)
              (some (
                ("remoteState", or_null r.remote_state)
                ∷ ("nextPollAt", date_or_null r.next_poll_at)
                ∷ []))
              c.now)
          updated

  unfoldable pub record_retry : String → String → ℕ → Db Tables (Option PublishJob)
  record_retry error_code error_message attempt_at = do
    worker_id ← ensure_non_empty c.worker_id "workerId"
    translating "Unable to schedule publish retry." do
      code ← ensure_non_empty error_code "errorCode"
      message ← ensure_non_empty error_message "errorMessage"
      updated ← update_jobs (holds_lease c worker_id) (to_retry code message attempt_at c.now)
      logged
          (λ r.
            insert_event r PublishJobEventType.publish_retry_scheduled
              (some PublishJobStatus.processing) (some PublishJobStatus.retrying)
              (some (
                ("errorCode", or_null r.remote_error_code)
                ∷ ("errorMessage", or_null r.remote_error_message)
                ∷ ("nextAttemptAt", date_or_null r.next_attempt_at)
                ∷ []))
              c.now)
          updated

  unfoldable pub complete :
      String → Option String → Option ℕ → PublishDownloadMetadata → Db Tables (Option PublishJob)
  complete remote_state correlation polled_at download = do
    worker_id ← ensure_non_empty c.worker_id "workerId"
    translating "Unable to complete publish job." do
      state ← ensure_non_empty remote_state "remoteState"
      updated ←
          update_jobs (holds_lease c worker_id) (done state correlation polled_at download c.now)
      logged
          (λ r.
            insert_event r PublishJobEventType.publish_completed (some PublishJobStatus.processing)
              (some PublishJobStatus.completed)
              (some (
                ("remoteState", or_null r.remote_state)
                ∷ ("remoteCorrelationId", or_null r.remote_correlation_id)
                ∷ []))
              c.now)
          updated

  unfoldable pub fail :
      String → String → Option String → Option String → Option ℕ → Db Tables (Option PublishJob)
  fail error_code error_message remote_state correlation polled_at = do
    worker_id ← ensure_non_empty c.worker_id "workerId"
    translating "Unable to fail publish job." do
      code ← ensure_non_empty error_code "errorCode"
      message ← ensure_non_empty error_message "errorMessage"
      updated ←
          update_jobs (holds_lease c worker_id)
            (given_up code message remote_state correlation polled_at c.now)
      logged
          (λ r.
            insert_event r PublishJobEventType.publish_failed (some PublishJobStatus.processing)
              (some PublishJobStatus.failed)
              (some (
                ("errorCode", or_null r.remote_error_code)
                ∷ ("errorMessage", or_null r.remote_error_message)
                ∷ ("remoteState", or_null r.remote_state)
                ∷ []))
              c.now)
          updated

  unfoldable pub mark_remote_cancelled :
      String → Option String → Option ℕ → Db Tables (Option PublishJob)
  mark_remote_cancelled remote_state correlation polled_at = do
    worker_id ← ensure_non_empty c.worker_id "workerId"
    translating "Unable to mark publish job cancelled from remote state." do
      state ← ensure_non_empty remote_state "remoteState"
      updated ← update_jobs (holds_lease c worker_id) (called_off state correlation polled_at c.now)
      logged
          (λ r.
            insert_event r PublishJobEventType.publish_cancelled (some PublishJobStatus.processing)
              (some PublishJobStatus.cancelled)
              (some (
                ("remoteState", or_null r.remote_state)
                ∷ ("remoteCorrelationId", or_null r.remote_correlation_id)
                ∷ []))
              c.now)
          updated
