-- ===== src/Content/Tests/Data.antt =====
-- Concrete content jobs, sessions, requests and a processor.
use roam_content_engine.Prelude.{◌+◌, true, false, Option, none, some, List, [], ◌∷◌}
use roam_content_engine.Json.{Json, text, object, end}
use roam_content_engine.Db.{Session, pure}
use roam_content_engine.Retry.{RetryPolicyConfig}
use roam_content_engine.Content.Types.{
  ContentJobRow, ContentJobStatus, ContentJobStage, CreateContentJobInput,
  TranscriptProcessingResult, WorkerLeasedJob, Tables,
}
use roam_content_engine.Content.Results.{Externals, result_json}
use roam_content_engine.Content.Statements.{job_of}
use roam_content_engine.Content.Source.{Caller}
use roam_content_engine.Content.Recovery.{RecoveryConfig}
use roam_content_engine.Content.Commands.{Command}
use roam_content_engine.Content.Executor.{
  Dependencies, Process, returns, reports, awaits, timer_fires, WorkerError, raises,
}

-- a schema that takes a text and puts another in its place
abbrev pub fixed_text : Json → Option Json
fixed_text (text s) = some (text "publication")
fixed_text _ = none

abbrev pub externals : Externals
externals = record {
  is_datetime = λ s. true;
  iso = λ n. "2026-01-01T00:00:00.000Z";
  sha256 = λ s. s;
  ai_schema = λ j. some j;
  publication_schema = fixed_text;
  html_document_schema = λ j. some j;
  render_artifact_schema = λ j. some j;
}

abbrev pub queued_job : ContentJobRow
queued_job = record {
  id = "job_1";
  tenant_id = "tenant_1";
  project_id = "project_1";
  source_version_id = "srcver_1";
  status = ContentJobStatus.queued;
  current_stage = ContentJobStage.queued;
  idempotency_key = "key-1";
  request_fingerprint = "fingerprint";
  attempt_count = 0;
  result = none;
  error_code = none;
  error_message = none;
  correlation_id = "corr_1";
  lease_owner = none;
  lease_expires_at = none;
  heartbeat_at = none;
  next_attempt_at = none;
  created_at = 5;
  started_at = none;
  completed_at = none;
  updated_at = 5;
}

abbrev pub leased_job : ContentJobRow
leased_job = record queued_job {
  id = "job_2";
  idempotency_key = "key-2";
  status = ContentJobStatus.processing;
  current_stage = ContentJobStage.normalizing_transcript;
  attempt_count = 1;
  lease_owner = some "worker-a";
  lease_expires_at = some 100;
  heartbeat_at = some 40;
  started_at = some 40;
  created_at = 1;
}

abbrev pub failed_job : ContentJobRow
failed_job = record queued_job {
  id = "job_3";
  idempotency_key = "key-3";
  status = ContentJobStatus.failed;
  current_stage = ContentJobStage.failed;
  error_code = some "WORKER_PERMANENT";
  completed_at = some 30;
}

abbrev pub session : Session Tables
session = record {
  tables = record {
    content_jobs = queued_job ∷ leased_job ∷ failed_job ∷ [];
    job_events = [];
    source_versions =
        record { id = "srcver_1"; tenant_id = "tenant_1"; project_id = "project_1" } ∷ [];
  };
  faults = [];
  locked = λ id. false;
  ulids = λ n. "ulid";
  drawn = 0;
  clock = λ n. 50 + n;
  read = 0;
}

abbrev pub request : CreateContentJobInput
request = record {
  tenant_id = "tenant_1";
  project_id = "project_1";
  source_version_id = "srcver_1";
  idempotency_key = " key-9 ";
  correlation_id = none;
  job_type = "transcript-processing";
  request_schema_version = "1.0";
}

abbrev pub worker_b : Caller
worker_b = record { tenant_id = "tenant_1"; job_id = "job_2"; worker_id = "worker-b"; now = 60 }

abbrev pub result : TranscriptProcessingResult
result = record {
  source_version_id = "srcver_1";
  content_hash = "hash";
  word_count = 3;
  character_count = 14;
  paragraph_count = 1;
  line_count = 1;
  processed_at = "2026-01-01T00:00:00Z";
  ai = none;
  publication = some (text "publication");
  html_document = none;
  render_artifact = some (object end);
}

abbrev pub commands : List Command
commands =
    Command.creating request
    ∷ Command.acquiring "worker-b" 60 50
    ∷ Command.failing worker_b "CODE" "message"
    ∷ Command.recovering "tenant_1" "job_2" 3 200 120
    ∷ Command.cancelling "tenant_1" "job_1"
    ∷ []

abbrev pub claimed_job : WorkerLeasedJob
claimed_job = record {
  base = job_of leased_job none;
  lease_owner = "worker-a";
  lease_expires_at = 100;
  heartbeat_at = 40;
  next_attempt_at = none;
}

abbrev pub policy : RetryPolicyConfig
policy = record {
  base_delay_ms = 10;
  max_delay_ms = 1000;
  max_attempts = 3;
  jitter_ratio = none;
  scale = 1;
}

abbrev pub go_on : Process → Option WorkerError → Process
go_on next none = next
go_on next (some e) = raises e

-- it reports a stage, awaits something, then the timer fires, and it returns; failures it passes on
abbrev pub process : WorkerLeasedJob → Process
process job =
    reports ContentJobStage.calculating_statistics
      (go_on (awaits (pure tt) (go_on (timer_fires (returns (result_json result))))))

abbrev pub dependencies : Dependencies
dependencies = record {
  processor = some process;
  lease_duration_ms = 60;
  retry_policy = policy;
  max_attempts = 3;
  draw = 0;
}

abbrev pub recovery_config : RecoveryConfig
recovery_config = record { max_attempts = 3; retry_policy = policy; random = λ n. 0 }
