-- ===== src/Publish/Tests/Data.antt =====
-- Concrete jobs, workers, sessions and an engine.
use Prim.Native.String.{◌++◌ as str_append}
use roam_content_engine.Prelude.{ℕ, zero, suc, ◌+◌, String, true, false, none, some, List, [], ◌∷◌}
use roam_content_engine.Db.{Session, pure, throw}
use roam_content_engine.Errors.{Thrown}
use roam_content_engine.Publish.Types.{
  PublishJob, PublishJobStatus, PublishJobStage, PublishJobMode, OutputFormat,
  SourceArtifactSnapshot, Tables,
}
use roam_content_engine.Publish.Statements.{Caller}
use roam_content_engine.Publish.Commands.{Command}
use roam_content_engine.Publish.Source.{ClaimedPublishJob}
use roam_content_engine.Publish.Engine.{
  PublishEngineClient, PublishEngineJob, PublishEngineJobState,
}
use roam_content_engine.Publish.Heartbeat.{Dependencies}

abbrev pub digest : String
digest = "0123456789abcdef0123456789abcdef0123456789abcdef0123456789abcdef"

abbrev pub snapshot : SourceArtifactSnapshot
snapshot = record {
  artifact_id = "render_1";
  payload_representation = "styled-html";
  mime_type = "text/html; charset=utf-8";
  file_extension = ".html";
  payload = "<p>a</p>";
  byte_size = 8;
  checksum_sha256 = digest;
}

abbrev pub queued_job : PublishJob
queued_job = record {
  id = "publish_1";
  tenant_id = "tenant_1";
  project_id = "project_1";
  source_content_job_id = "job_1";
  source_render_artifact_id = "render_1";
  source_artifact_checksum_sha256 = digest;
  source_artifact_byte_size = 8;
  source_artifact_snapshot = snapshot;
  publish_mode = PublishJobMode.standard;
  output_format = OutputFormat.html;
  render_options = none;
  publication_metadata = none;
  status = PublishJobStatus.queued;
  stage = PublishJobStage.queued;
  idempotency_key = "key";
  request_fingerprint = digest;
  remote_submission_idempotency_key = "remote-key";
  remote_job_id = none;
  remote_state = none;
  remote_correlation_id = none;
  remote_error_code = none;
  remote_error_message = none;
  download_metadata = none;
  attempt_count = 0;
  consecutive_failure_count = 0;
  poll_count = 0;
  correlation_id = "correlation";
  lease_owner = none;
  lease_expires_at = none;
  heartbeat_at = none;
  next_attempt_at = none;
  next_poll_at = none;
  submitted_at = none;
  last_polled_at = none;
  completed_at = none;
  cancelled_at = none;
  created_at = 5;
  updated_at = 5;
}

abbrev pub leased_job : PublishJob
leased_job = record queued_job {
  id = "publish_2";
  status = PublishJobStatus.processing;
  stage = PublishJobStage.submitting;
  attempt_count = 1;
  lease_owner = some "worker-a";
  lease_expires_at = some 100;
  heartbeat_at = some 10;
}

abbrev pub cancelled_job : PublishJob
cancelled_job = record queued_job {
  id = "publish_3";
  status = PublishJobStatus.cancelled;
  stage = PublishJobStage.cancelled;
  cancelled_at = some 7;
}

-- the second statement from now on fails
abbrev pub session : Session Tables
session = record {
  tables = record {
    publish_jobs = queued_job ∷ leased_job ∷ cancelled_job ∷ [];
    publish_job_events = [];
  };
  faults = none ∷ some (Thrown.plain_error "connection lost") ∷ [];
  locked = λ id. false;
  ulids = λ n. "01HZZZZZZZZZZZZZZZZZZZZZZZ";
  drawn = 0;
  clock = λ n. 20 + n;
  read = 0;
}

abbrev pub worker_a : Caller
worker_a = record {
  tenant_id = "tenant_1";
  publish_job_id = "publish_2";
  worker_id = "worker-a";
  now = 20;
}

abbrev pub commands : List Command
commands =
    Command.acquiring "worker-b" 50 20
    ∷ Command.submitting worker_a "remote-1" "queued" none 20 30
    ∷ Command.cancelling "tenant_1" "publish_1" 21
    ∷ Command.recovering 200 3 1000 10
    ∷ []

abbrev pub quiet_session : Session Tables
quiet_session = record session { faults = [] }

abbrev pub claim_b : ClaimedPublishJob
claim_b = record {
  tenant_id = "tenant_1";
  publish_job_id = "publish_1";
  worker_id = "worker-b";
  lease_expires_at = 70;
}

-- an engine that accepts whatever is submitted
abbrev pub remote_job : PublishEngineJob
remote_job = record {
  job_id = "remote-1";
  state = PublishEngineJobState.accepted;
  correlation_id = none;
  error = none;
}

abbrev pub client : PublishEngineClient
client = record {
  submit_render = λ q o. pure remote_job;
  submit_cta_render = λ q o. pure remote_job;
  get_job = λ id o. pure remote_job;
  get_download = λ id o. throw (Thrown.job_failed "no download");
}

abbrev pub dependencies : Dependencies
dependencies = record {
  client = client;
  externals = record {
    sha256_hex = λ s. digest;
    zod_message = "invalid";
    is_url = λ s. true;
    is_datetime = λ s. true;
  };
  poll_interval_ms = 10;
  lease_duration_ms = 60;
  max_consecutive_failures = 3;
  retry_policy = record {
    base_delay_ms = 5;
    max_delay_ms = 60;
    max_attempts = 3;
    jitter_ratio = none;
    scale = 1;
  };
  beats = 1;
  draw = 0;
}

abbrev pub claim_a : ClaimedPublishJob
claim_a = record {
  tenant_id = "tenant_1";
  publish_job_id = "publish_2";
  worker_id = "worker-a";
  lease_expires_at = 100;
}

-- a text behind that many blanks
abbrev pub padded : ℕ → String
padded zero = "x"
padded (suc n) = str_append " " (padded n)
