-- ===== src/Publish/Engine.antt =====
-- The publish engine as the executor sees it: the jobs of
-- src/infrastructure/publish-engine/publish-engine-types.ts and the interface of
-- publish-engine-client.ts beside it. A call is an action of the session;
-- `waitForJob`, which the executor does not call, is left out.
use roam_content_engine.Prelude.{String, Bool, Option}
use roam_content_engine.Db.{Db}
use roam_content_engine.Publish.Types.{
  OutputFormat, RenderOptions, PublicationMetadata, PublishDownloadMetadata, Tables,
}
use roam_content_engine.Publish.Artifact.{StyledHtmlSource}

-- PublishEngineJobState and PublishEngineJob of publish-engine-types.ts
pub data PublishEngineJobState : Type 0 where
  queued accepted running processing succeeded failed cancelled : PublishEngineJobState

pub record PublishEngineJob : Type 0 where
  pub job_id : String
  pub state : PublishEngineJobState
  pub correlation_id : Option String
  pub error : Option (String × String)

-- SubmitRenderRequest and SubmitCtaRenderRequest
pub record SubmitRequest : Type 0 where
  pub source : StyledHtmlSource
  pub output_format : OutputFormat
  pub publication : Option PublicationMetadata
  pub render_options : Option RenderOptions

-- PublishEngineRequestOptions; `aborted` is the state of the signal
pub record RequestOptions : Type 0 where
  pub idempotency_key : Option String
  pub correlation_id : String
  pub aborted : Bool

-- publish-engine-client.ts
pub record PublishEngineClient : Type 0 where
  pub submit_render : SubmitRequest → RequestOptions → Db Tables PublishEngineJob
  pub submit_cta_render : SubmitRequest → RequestOptions → Db Tables PublishEngineJob
  pub get_job : String → RequestOptions → Db Tables PublishEngineJob
  pub get_download : String → RequestOptions → Db Tables PublishDownloadMetadata

-- `remoteJob.state` as it is stored
unfoldable pub state_text : PublishEngineJobState → String
state_text PublishEngineJobState.queued = "queued"
state_text PublishEngineJobState.accepted = "accepted"
state_text PublishEngineJobState.running = "running"
state_text PublishEngineJobState.processing = "processing"
state_text PublishEngineJobState.succeeded = "succeeded"
state_text PublishEngineJobState.failed = "failed"
state_text PublishEngineJobState.cancelled = "cancelled"
