-- ===== src/Publish/Classifier.antt =====
-- src/application/publish-jobs/publish-retry-classifier.ts: whether a failure is worth another
-- attempt, and what is stored of it.
pub mod Messages
use Prim.Native.String.{◌++◌ as str_append}
use roam_content_engine.Prelude.{
  ℕ, String, Bool, true, false, Option, none, some, ◌||◌, leb, ◌==◌, if◌then◌else◌, trim, is_empty,
  utf16_length, slice_to,
}
use roam_content_engine.Errors.{Thrown}
use roam_content_engine.Retry.{is_retryable_status}

pub data PublishFailurePhase : Type 0 where
  submission poll download : PublishFailurePhase

pub record PublishRetryClassification : Type 0 where
  pub retryable : Bool
  pub error_code : String
  pub error_message : String

abbrev pub max_error_message_chars : ℕ
max_error_message_chars = 500

unfoldable pub sanitize_error_message : String → String
sanitize_error_message message =
    if leb (utf16_length message) max_error_message_chars
    then message
    else slice_to max_error_message_chars message

-- `error.message`, if the thrown value is an Error
unfoldable pub message_of : Thrown → Option String
message_of (Thrown.configuration m) = some m
message_of (Thrown.authentication m) = some m
message_of (Thrown.transport m) = some m
message_of (Thrown.timeout m) = some m
message_of (Thrown.cancelled m) = some m
message_of (Thrown.protocol m) = some m
message_of (Thrown.retry_exhausted m) = some m
message_of (Thrown.job_failed m) = some m
message_of (Thrown.job_cancelled m) = some m
message_of (Thrown.wait_timeout m) = some m
message_of (Thrown.artifact_invalid m) = some m
message_of (Thrown.remote_request status m) = some m
message_of (Thrown.idempotency_conflict m) = some m
message_of (Thrown.platform code m) = some m
message_of (Thrown.unique_violation m) = some m
message_of (Thrown.plain_error m) = some m
message_of Thrown.lease_lost = some "Publish lease lost."
message_of Thrown.non_error = none

-- behind `error instanceof Error`
unfoldable pub message_or : Option String → String → String
unfolding sanitize_error_message
message_or none fallback = fallback
message_or (some message) fallback =
    if is_empty (trim message) then fallback else sanitize_error_message message

unfoldable pub message_from_error : Thrown → String → String
unfolding message_of message_or
message_from_error error fallback = message_or (message_of error) fallback

unfoldable pub phase_prefix : PublishFailurePhase → String
phase_prefix submission = "submission failed"
phase_prefix poll = "poll failed"
phase_prefix download = "download failed"

module _ (error : Thrown) (phase : PublishFailurePhase) where
  -- one `return` of the classifier
  unfoldable pub verdict : Bool → String → String → PublishRetryClassification
  verdict retryable code suffix = record {
    retryable = retryable;
    error_code = code;
    error_message = message_from_error error (str_append (phase_prefix phase) suffix);
  }

  unfoldable pub classify_remote : ℕ → PublishRetryClassification
  classify_remote status =
      if status == 401 || status == 403
      then verdict false "PUBLISH_ENGINE_AUTHENTICATION_ERROR" ": unauthorized remote response"
      else if is_retryable_status status
      then verdict true "PUBLISH_ENGINE_REMOTE_REQUEST_ERROR" ": retryable remote response"
      else verdict false "PUBLISH_ENGINE_REMOTE_REQUEST_ERROR" ": non-retryable remote response"

-- the chain of `instanceof` tests
unfoldable pub classify_error : Thrown → PublishFailurePhase → PublishRetryClassification
unfolding classify_remote
classify_error (Thrown.authentication m) phase =
    verdict (Thrown.authentication m) phase false "PUBLISH_ENGINE_AUTHENTICATION_ERROR"
      ": authentication error"
classify_error (Thrown.protocol m) phase =
    verdict (Thrown.protocol m) phase false "PUBLISH_ENGINE_PROTOCOL_ERROR" ": protocol error"
classify_error (Thrown.idempotency_conflict m) phase =
    verdict (Thrown.idempotency_conflict m) phase false "PUBLISH_JOB_IDEMPOTENCY_CONFLICT"
      ": idempotency conflict"
classify_error (Thrown.artifact_invalid m) phase =
    verdict (Thrown.artifact_invalid m) phase false "PUBLISH_SOURCE_ARTIFACT_INVALID"
      ": invalid artifact"
classify_error (Thrown.job_failed m) phase =
    verdict (Thrown.job_failed m) phase false "PUBLISH_REMOTE_JOB_FAILED" ": remote job failed"
classify_error (Thrown.job_cancelled m) phase =
    verdict (Thrown.job_cancelled m) phase false "PUBLISH_REMOTE_JOB_CANCELLED"
      ": remote job cancelled"
classify_error (Thrown.cancelled m) phase =
    verdict (Thrown.cancelled m) phase false "PUBLISH_REMOTE_JOB_CANCELLED" ": remote job cancelled"
classify_error (Thrown.transport m) phase =
    verdict (Thrown.transport m) phase true "PUBLISH_ENGINE_TRANSPORT_ERROR"
      ": retryable transport failure"
classify_error (Thrown.timeout m) phase =
    verdict (Thrown.timeout m) phase true "PUBLISH_ENGINE_TIMEOUT" ": retryable transport failure"
classify_error (Thrown.wait_timeout m) phase =
    verdict (Thrown.wait_timeout m) phase true "PUBLISH_ENGINE_WAIT_TIMEOUT"
      ": retryable transport failure"
classify_error (Thrown.retry_exhausted m) phase =
    verdict (Thrown.retry_exhausted m) phase true "PUBLISH_ENGINE_RETRY_EXHAUSTED"
      ": retryable transport failure"
classify_error (Thrown.remote_request status m) phase =
    classify_remote (Thrown.remote_request status m) phase status
classify_error (Thrown.platform code m) phase =
    verdict (Thrown.platform code m) phase false code ": platform error"
classify_error (Thrown.configuration m) phase =
    verdict (Thrown.configuration m) phase false "PUBLISH_ENGINE_CONFIGURATION_ERROR"
      ": platform error"
classify_error error phase =
    verdict error phase true "PUBLISH_ENGINE_TRANSPORT_ERROR" ": unexpected retryable failure"

unfoldable pub classify_publish_orchestration_failure :
    Thrown → PublishFailurePhase → Bool → PublishRetryClassification
unfolding classify_error
classify_publish_orchestration_failure error phase true =
    verdict error phase true "PUBLISH_ENGINE_TRANSPORT_ERROR" ": uncertain submission outcome"
classify_publish_orchestration_failure error phase false = classify_error error phase
