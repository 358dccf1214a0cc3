-- ===== src/Publish/Executor.antt =====
-- PublishJobExecutor (src/application/publish-jobs/publish-job-executor.ts): one claim is carried
-- one step further, by a submission to the publish engine or by a poll of it.
-- The engine's client is an interface: its calls are actions of the session, so that whatever other
-- workers do to the tables while a call is awaited is part of it. The logger is left out.
pub mod Settled
pub mod Truth
pub mod Keeps
pub mod Unrecorded
pub mod Invariants
use roam_content_engine.Prelude.{
  ℕ, zero, suc, ◌+◌, String, Bool, true, false, Option, none, some, ◌&&◌, ◌||◌, not, leb, is_some,
  str_eq, coalesce, if◌then◌else◌,
}
use roam_content_engine.Errors.{Thrown, validation}
use roam_content_engine.Db.{
  Result, ok, thrown, crashed, Session, Db, ◌>>=◌, pure, throw, now, catching,
}
use roam_content_engine.Retry.{RetryPolicyConfig, calculate_retry_delay_ms}
use roam_content_engine.Publish.Types.{
  RenderOptions, StoredRenderOptions, PublishJob, PublishJobStatus, PublishJobStage, PublishJobMode,
  OutputFormat, RenderOptions, PublicationMetadata, PublishDownloadMetadata, Tables, same_status,
}
use roam_content_engine.Publish.Engine.{
  PublishEngineJobState, PublishEngineJob, SubmitRequest, RequestOptions, PublishEngineClient,
  state_text,
}
use roam_content_engine.Publish.Heartbeat.{Dependencies, caller, with_heartbeat}
use roam_content_engine.Publish.Statements.{Caller}
use roam_content_engine.Publish.Repository.Leases.{get_by_id, set_stage}
use roam_content_engine.Publish.Repository.Settle.{
  record_submission, record_remote_waiting, record_retry, complete, fail, mark_remote_cancelled,
}
use roam_content_engine.Publish.Repository.Recovery.{is_truthy}
use roam_content_engine.Publish.Source.{ClaimedPublishJob, renew_lease}
use roam_content_engine.Publish.Classifier.{
  PublishFailurePhase, submission, poll, classify_publish_orchestration_failure,
}
use roam_content_engine.Publish.Artifact.{
  Externals, StyledHtmlSource, source_of, parse_standard, parse_cta, sanitize_download,
}

pub data Outcome : Type 0 where
  completed waiting retry_scheduled failed cancelled lease_lost : Outcome

-- `persisted ? outcome : 'lease-lost'`
abbrev pub outcome_of : Outcome → Option PublishJob → Outcome
outcome_of o none = Outcome.lease_lost
outcome_of o (some _) = o

module _ (deps : Dependencies) where
  -- the remote state that `fail` is given in `handleFailure`
  abbrev kept_state : PublishFailurePhase → PublishJob → Option String
  kept_state poll job = if is_truthy job.remote_job_id then job.remote_state else none
  kept_state _ job = none

  unfoldable pub handle_failure : PublishJob → PublishFailurePhase → Thrown → Db Tables Outcome
  handle_failure job phase error = do
    at ← now
    let verdict = classify_publish_orchestration_failure error phase false
    let count = job.consecutive_failure_count + 1
    let give_up = λ (code : String).
        fail (caller job at) code verdict.error_message (kept_state phase job) none none >>= λ r.
        pure (outcome_of Outcome.failed r)
    if not verdict.retryable
        then give_up verdict.error_code
        else if leb deps.max_consecutive_failures count
        then give_up "PUBLISH_JOB_RETRY_EXHAUSTED"
        else (record_retry (caller job at) verdict.error_code verdict.error_message
              (at + calculate_retry_delay_ms count deps.retry_policy deps.draw)
            >>= λ r. pure (outcome_of Outcome.retry_scheduled r))

  -- the two catch blocks
  unfoldable pub recover_from : PublishJob → PublishFailurePhase → Thrown → Db Tables Outcome
  recover_from job phase Thrown.lease_lost = pure Outcome.lease_lost
  recover_from job phase error = handle_failure job phase error

  abbrev options : PublishJob → Option String → Bool → RequestOptions
  options job key aborted = record {
    idempotency_key = key;
    correlation_id = job.correlation_id;
    aborted = aborted;
  }

  -- `metadata ? schema.safeParse(metadata) : { success: false }`
  abbrev parsed :
      (PublicationMetadata → Option PublicationMetadata)
      → Option PublicationMetadata
      → Option PublicationMetadata
  parsed parse none = none
  parsed parse (some m) = parse m

  -- `publishRenderOptionsBoundedSchema.parse(job.renderOptions)`, if there are any
  unfoldable pub parse_render_options :
      Option StoredRenderOptions → Db Tables (Option RenderOptions)
  parse_render_options none = pure none
  parse_render_options (some (StoredRenderOptions.accepted o)) = pure (some o)
  parse_render_options (some StoredRenderOptions.malformed) =
      throw (Thrown.plain_error deps.externals.zod_message)

  abbrev request :
      PublishJob
      → StyledHtmlSource
      → Option RenderOptions
      → Option PublicationMetadata
      → SubmitRequest
  request job source render_options publication = record {
    source = source;
    output_format = job.output_format;
    publication = publication;
    render_options = render_options;
  }

  -- the operation under the heartbeat, by the mode and the parsed CTA metadata
  unfoldable pub submit_operation :
      PublishJob
      → StyledHtmlSource
      → Option RenderOptions
      → PublishJobMode
      → Option PublicationMetadata
      → Bool
      → Db Tables PublishEngineJob
  submit_operation job source o PublishJobMode.cta_guide none aborted =
      throw (validation "CTA publish metadata is invalid for cta-guide mode.")
  submit_operation job source o PublishJobMode.cta_guide (some m) aborted =
      deps.client.submit_cta_render (request job source o (some m))
        (options job (some job.remote_submission_idempotency_key) aborted)
  submit_operation job source o PublishJobMode.standard _ aborted =
      deps.client.submit_render
        (request job source o (parsed (parse_standard deps.externals) job.publication_metadata))
        (options job (some job.remote_submission_idempotency_key) aborted)

  -- `if (!persisted) throw new PublishLeaseLostError()`
  unfoldable pub persisted_or_lost : Option PublishJob → Db Tables Outcome
  persisted_or_lost none = throw Thrown.lease_lost
  persisted_or_lost (some _) = pure Outcome.waiting

  unfoldable pub submit_remote_job : PublishJob → Bool → Db Tables Outcome
  unfolding submit_operation persisted_or_lost parse_render_options
  submit_remote_job job aborted = do
    staged_at ← now
    _ ← set_stage (caller job staged_at) PublishJobStage.submitting
    catching
        (do
          source ← source_of deps.externals job.source_artifact_snapshot
          render_options ← parse_render_options job.render_options
          remote ← with_heartbeat deps job aborted (
              submit_operation job source render_options job.publish_mode
                (parsed (parse_cta deps.externals) job.publication_metadata))
          at ← now
          persisted ←
              record_submission (caller job at) remote.job_id (state_text remote.state)
                remote.correlation_id at (at + deps.poll_interval_ms)
          persisted_or_lost persisted)
        (recover_from job submission)

  -- `remoteJob.error?.code ?? …` and the like
  abbrev remote_code : Option (String × String) → String
  remote_code none = "PUBLISH_REMOTE_JOB_FAILED"
  remote_code (some e) = e.0

  abbrev remote_message : Option (String × String) → String
  remote_message none = "Remote publish job failed."
  remote_message (some e) = e.1

  still_running : PublishJob → ℕ → PublishEngineJob → Db Tables Outcome
  still_running job polled_at remote =
      record_remote_waiting (caller job polled_at) (state_text remote.state) remote.correlation_id
        polled_at (polled_at + deps.poll_interval_ms)
      >>= λ r. pure (outcome_of Outcome.waiting r)

  -- what a poll does with the answer, by the remote state
  polled :
      PublishJob → Bool → String → ℕ → PublishEngineJob → PublishEngineJobState → Db Tables Outcome
  polled job aborted remote_id polled_at remote PublishEngineJobState.failed =
      fail (caller job polled_at) (remote_code remote.error) (remote_message remote.error)
        (some (state_text remote.state)) remote.correlation_id (some polled_at)
      >>= λ r. pure (outcome_of Outcome.failed r)
  polled job aborted remote_id polled_at remote PublishEngineJobState.cancelled =
      mark_remote_cancelled (caller job polled_at) (state_text remote.state) remote.correlation_id
        (some polled_at)
      >>= λ r. pure (outcome_of Outcome.cancelled r)
  polled job aborted remote_id polled_at remote PublishEngineJobState.succeeded = do
    _ ← set_stage (caller job polled_at) PublishJobStage.retrieving_download
    download ←
        with_heartbeat deps job aborted
          (λ lost. deps.client.get_download remote_id (options job none lost))
    metadata ← sanitize_download deps.externals download
    at ← now
    r ←
        complete (caller job at) (state_text remote.state) remote.correlation_id (some polled_at)
          metadata
    pure (outcome_of Outcome.completed r)
  polled job aborted remote_id polled_at remote _ = still_running job polled_at remote

  unfoldable pub poll_remote_job : PublishJob → Bool → String → Db Tables Outcome
  unfolding polled still_running
  poll_remote_job job aborted remote_id = do
    staged_at ← now
    _ ← set_stage (caller job staged_at) PublishJobStage.checking_remote_status
    catching
        (do
          remote ←
              with_heartbeat deps job aborted
                (λ lost. deps.client.get_job remote_id (options job none lost))
          polled_at ← now
          polled job aborted remote_id polled_at remote remote.state)
        (recover_from job poll)

  abbrev is_held_by : String → PublishJob → Bool
  is_held_by worker_id r =
      same_status r.status PublishJobStatus.processing
      && (elim r.lease_owner [ none ↦ false | some o ↦ str_eq o worker_id ])

  -- submission or poll, by `!current.remoteJobId`
  unfoldable pub advance : PublishJob → Bool → Option String → Db Tables Outcome
  advance job aborted none = submit_remote_job job aborted
  advance job aborted (some remote_id) =
      if is_truthy (some remote_id)
      then poll_remote_job job aborted remote_id
      else submit_remote_job job aborted

  -- behind `getById`
  unfoldable pub execute_current : String → Bool → Option PublishJob → Db Tables Outcome
  execute_current worker_id aborted none = pure Outcome.lease_lost
  execute_current worker_id aborted (some current) =
      if is_held_by worker_id current
      then advance current aborted current.remote_job_id
      else pure Outcome.lease_lost

  unfoldable pub execute : ClaimedPublishJob → Bool → Db Tables Outcome
  execute claim aborted = do
    current ← get_by_id claim.tenant_id claim.publish_job_id
    execute_current claim.worker_id aborted current
