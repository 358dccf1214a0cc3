-- ===== src/Content/Types.antt =====
-- src/domain/content-jobs/types.ts, src/domain/workers/worker-types.ts, and the rows of the tables
-- content_jobs, job_events and source_versions (src/db/schema). A date is its number of
-- milliseconds.
use Prim.Native.String.{◌++◌ as str_append}
use roam_content_engine.Prelude.{
  ℕ, ◌+◌, String, Bool, true, false, Option, List, ◌&&◌, ltb, starts_with, count,
}
use roam_content_engine.Json.{Json}

pub data ContentJobStatus : Type 0 where
  queued processing retrying completed failed cancelled : ContentJobStatus

pub data ContentJobStage : Type 0 where
  queued normalizing_transcript calculating_statistics completed failed : ContentJobStage

-- jobEventTypeEnum
pub data JobEventType : Type 0 where
  job_created job_claimed job_lease_acquired job_processing_started job_completed : JobEventType
  job_retry_scheduled job_failed job_cancelled job_lease_expired : JobEventType

-- what `transcriptProcessingResultSchema` gives; `schemaVersion` is always '1.0'
pub record TranscriptProcessingResult : Type 0 where
  pub source_version_id : String
  pub content_hash : String
  pub word_count : ℕ
  pub character_count : ℕ
  pub paragraph_count : ℕ
  pub line_count : ℕ
  pub processed_at : String
  pub ai : Option Json
  pub publication : Option Json
  pub html_document : Option Json
  pub render_artifact : Option Json

-- a row of content_jobs
pub record ContentJobRow : Type 0 where
  pub id : String
  pub tenant_id : String
  pub project_id : String
  pub source_version_id : String
  pub status : ContentJobStatus
  pub current_stage : ContentJobStage
  pub idempotency_key : String
  pub request_fingerprint : String
  pub attempt_count : ℕ
  pub result : Option Json
  pub error_code : Option String
  pub error_message : Option String
  pub correlation_id : String
  pub lease_owner : Option String
  pub lease_expires_at : Option ℕ
  pub heartbeat_at : Option ℕ
  pub next_attempt_at : Option ℕ
  pub created_at : ℕ
  pub started_at : Option ℕ
  pub completed_at : Option ℕ
  pub updated_at : ℕ

pub record ContentJob : Type 0 where
  pub id : String
  pub tenant_id : String
  pub project_id : String
  pub source_version_id : String
  pub status : ContentJobStatus
  pub current_stage : ContentJobStage
  pub idempotency_key : String
  pub request_fingerprint : String
  pub attempt_count : ℕ
  pub result : Option TranscriptProcessingResult
  pub error_code : Option String
  pub error_message : Option String
  pub correlation_id : String
  pub created_at : ℕ
  pub started_at : Option ℕ
  pub completed_at : Option ℕ
  pub updated_at : ℕ

-- `ContentJob & { … }`
pub record WorkerLeasedJob : Type 0 where
  pub base : ContentJob
  pub lease_owner : String
  pub lease_expires_at : ℕ
  pub heartbeat_at : ℕ
  pub next_attempt_at : Option ℕ

pub record CreateContentJobInput : Type 0 where
  pub tenant_id : String
  pub project_id : String
  pub source_version_id : String
  pub idempotency_key : String
  pub correlation_id : Option String
  pub job_type : String
  pub request_schema_version : String

pub record JobEvent : Type 0 where
  pub id : String
  pub tenant_id : String
  pub job_id : String
  pub event_type : JobEventType
  pub prior_status : Option ContentJobStatus
  pub new_status : Option ContentJobStatus
  pub details : Option Json
  pub created_at : ℕ

-- the columns of source_versions that the jobs ask for
pub record SourceVersion : Type 0 where
  pub id : String
  pub tenant_id : String
  pub project_id : String

pub record Tables : Type 0 where
  pub content_jobs : List ContentJobRow
  pub job_events : List JobEvent
  pub source_versions : List SourceVersion

-- `eq(contentJobs.status, status)`
unfoldable pub same_status : ContentJobStatus → ContentJobStatus → Bool
same_status queued queued = true
same_status processing processing = true
same_status retrying retrying = true
same_status completed completed = true
same_status failed failed = true
same_status cancelled cancelled = true
same_status _ _ = false

-- `isPrefixedId(value, prefix)` of src/platform/identity/ids/index.ts. The prefix is ASCII, so its
-- length in UTF-16 units is its count of characters; the value's only matters beyond it.
unfoldable pub is_prefixed_id : String → String → Bool
is_prefixed_id value prefix =
    starts_with value (str_append prefix "_") && ltb (count prefix + 1) (count value)
