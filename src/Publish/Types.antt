-- ===== src/Publish/Types.antt =====
-- src/domain/publish-jobs/types.ts and the option types of
-- src/infrastructure/publish-engine/publish-engine-types.ts. A date is its number of milliseconds.
use roam_content_engine.Prelude.{
  ℕ, String, Bool, true, false, Option, List, ◌&&◌, ltb, starts_with, count,
}

pub data PublishJobStatus : Type 0 where
  queued processing waiting retrying completed failed cancelled : PublishJobStatus

pub data PublishJobStage : Type 0 where
  queued validating_source submitting waiting_for_remote checking_remote_status : PublishJobStage
  retrieving_download completed failed cancelled : PublishJobStage

pub data PublishJobMode : Type 0 where
  standard cta_guide : PublishJobMode

pub data PublishJobEventType : Type 0 where
  publish_job_created publish_job_claimed publish_submitted : PublishJobEventType
  publish_status_polled publish_waiting publish_retry_scheduled : PublishJobEventType
  publish_completed publish_failed publish_cancelled publish_lease_expired : PublishJobEventType

pub data OutputFormat : Type 0 where
  html pdf epub : OutputFormat

pub data Density : Type 0 where
  comfortable standard compact high_density : Density

pub data Layout : Type 0 where
  single_column two_column wide_content : Layout

-- PublishSourceArtifactSnapshot; its literal-typed fields are strings here, as the stored JSON is.
pub record SourceArtifactSnapshot : Type 0 where
  pub artifact_id : String
  pub payload_representation : String
  pub mime_type : String
  pub file_extension : String
  pub payload : String
  pub byte_size : ℕ
  pub checksum_sha256 : String

pub record RenderOptions : Type 0 where
  pub density_id : Option Density
  pub layout_id : Option Layout
  pub include_toc : Option Bool

-- What the jsonb column holds, if its value is truthy: a value that publishRenderOptionsSchema accepts,
-- or another one.
pub data StoredRenderOptions : Type 0 where
  accepted : RenderOptions → StoredRenderOptions
  malformed : StoredRenderOptions

-- PublishEnginePublicationMetadata | PublishEngineCtaPublicationMetadata
pub record PublicationMetadata : Type 0 where
  pub publication_id : Option String
  pub title : Option String
  pub language : Option String
  pub theme : Option String
  pub audience : Option String

pub record PublishDownloadMetadata : Type 0 where
  pub file_name : String
  pub mime_type : String
  pub byte_size : Option ℕ
  pub checksum_sha256 : Option String
  pub download_url : Option String
  pub expires_at : Option String

pub record PublishJob : Type 0 where
  pub id : String
  pub tenant_id : String
  pub project_id : String
  pub source_content_job_id : String
  pub source_render_artifact_id : String
  pub source_artifact_checksum_sha256 : String
  pub source_artifact_byte_size : ℕ
  pub source_artifact_snapshot : SourceArtifactSnapshot
  pub publish_mode : PublishJobMode
  pub output_format : OutputFormat
  pub render_options : Option StoredRenderOptions
  pub publication_metadata : Option PublicationMetadata
  pub status : PublishJobStatus
  pub stage : PublishJobStage
  pub idempotency_key : String
  pub request_fingerprint : String
  pub remote_submission_idempotency_key : String
  pub remote_job_id : Option String
  pub remote_state : Option String
  pub remote_correlation_id : Option String
  pub remote_error_code : Option String
  pub remote_error_message : Option String
  pub download_metadata : Option PublishDownloadMetadata
  pub attempt_count : ℕ
  pub consecutive_failure_count : ℕ
  pub poll_count : ℕ
  pub correlation_id : String
  pub lease_owner : Option String
  pub lease_expires_at : Option ℕ
  pub heartbeat_at : Option ℕ
  pub next_attempt_at : Option ℕ
  pub next_poll_at : Option ℕ
  pub submitted_at : Option ℕ
  pub last_polled_at : Option ℕ
  pub completed_at : Option ℕ
  pub cancelled_at : Option ℕ
  pub created_at : ℕ
  pub updated_at : ℕ

-- a value in an event's `details`; `date` is a date's `toISOString()`
pub data Detail : Type 0 where
  null : Detail
  text : String → Detail
  number date : ℕ → Detail
  flag : Bool → Detail
  a_status : PublishJobStatus → Detail
  a_stage : PublishJobStage → Detail

pub record PublishJobEvent : Type 0 where
  pub id : String
  pub tenant_id : String
  pub publish_job_id : String
  pub event_type : PublishJobEventType
  pub prior_status : Option PublishJobStatus
  pub new_status : Option PublishJobStatus
  pub details : Option (List (String × Detail))
  pub created_at : ℕ

-- The tables publish_jobs and publish_job_events (src/db/schema).
pub record Tables : Type 0 where
  pub publish_jobs : List PublishJob
  pub publish_job_events : List PublishJobEvent

-- `eq(publishJobs.status, status)`
unfoldable pub same_status : PublishJobStatus → PublishJobStatus → Bool
same_status queued queued = true
same_status processing processing = true
same_status waiting waiting = true
same_status retrying retrying = true
same_status completed completed = true
same_status failed failed = true
same_status cancelled cancelled = true
same_status _ _ = false

-- `isPrefixedId(value, 'tenant')` of src/platform/identity/ids/index.ts
unfoldable pub is_tenant_id : String → Bool
is_tenant_id value = starts_with value "tenant_" && ltb 7 (count value)
