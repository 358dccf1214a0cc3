-- ===== src/Content/Statements.antt =====
-- What the statements of src/infrastructure/workers/database-job-source.ts and
-- src/infrastructure/repositories/drizzle-content-job-repository.ts share.
use Prim.Native.String.{◌++◌ as str_append}
use roam_content_engine.Prelude.{
  ℕ, String, Bool, Option, none, some, [], ◌∷◌, ◌++◌, refl, ◌&&◌, ◌||◌, leb, holds, is_none, str_eq,
  if◌then◌else◌,
}
use roam_content_engine.Errors.{validation}
use roam_content_engine.Json.{Json, is_truthy}
use roam_content_engine.Db.{Db, ◌>>=◌, ◌>>◌, pure, throw, statement, draw}
use roam_content_engine.Db.Rows.{Table, update_rows}
use roam_content_engine.Content.Types.{
  ContentJobRow, ContentJob, ContentJobStatus, JobEventType, TranscriptProcessingResult, Tables,
}
use roam_content_engine.Content.Results.{Externals, parse_result}

abbrev pub content_table : Table Tables ContentJobRow
content_table = record {
  rows = λ t. t.content_jobs;
  put = λ rs t. record t { content_jobs = rs };
  rows_put = λ rs t. refl;
}

-- UPDATE content_jobs SET … WHERE … RETURNING *, of which the code reads the first row
unfoldable pub update_jobs :
    (ContentJobRow → Bool) → (ContentJobRow → ContentJobRow) → Db Tables (Option ContentJobRow)
update_jobs cond set = update_rows content_table cond set

-- INSERT INTO job_events, with an id from `createJobEventId()`, a prefix and a ULID
unfoldable pub insert_event :
    String
    → String
    → JobEventType
    → Option ContentJobStatus
    → Option ContentJobStatus
    → Option Json
    → ℕ
    → Db Tables (Unit {0})
insert_event tenant_id job_id event_type prior_status new_status details created_at = do
  id ← draw
  statement λ t. (
    tt,
    record t {
      job_events =
          t.job_events
          ++ record {
            id = str_append "evt_" id;
            tenant_id = tenant_id;
            job_id = job_id;
            event_type = event_type;
            prior_status = prior_status;
            new_status = new_status;
            details = details;
            created_at = created_at;
          }
            ∷ [];
    },
  )

abbrev pub job_of : ContentJobRow → Option TranscriptProcessingResult → ContentJob
job_of row result = record {
  id = row.id;
  tenant_id = row.tenant_id;
  project_id = row.project_id;
  source_version_id = row.source_version_id;
  status = row.status;
  current_stage = row.current_stage;
  idempotency_key = row.idempotency_key;
  request_fingerprint = row.request_fingerprint;
  attempt_count = row.attempt_count;
  result = result;
  error_code = row.error_code;
  error_message = row.error_message;
  correlation_id = row.correlation_id;
  created_at = row.created_at;
  started_at = row.started_at;
  completed_at = row.completed_at;
  updated_at = row.updated_at;
}

module _ (x : Externals) where
  -- `row.result ? safeParse(row.result) : { success: true, data: null }`; `none` is a failed parse
  unfoldable pub stored_result : Option Json → Option (Option TranscriptProcessingResult)
  stored_result none = some none
  stored_result (some j) =
      if is_truthy j
      then (elim (parse_result x j) [ none ↦ none | some r ↦ some (some r) ])
      else some none

  mapped : ContentJobRow → Option (Option TranscriptProcessingResult) → Db Tables ContentJob
  mapped row none = throw (validation "Stored job result has invalid schema.")
  mapped row (some result) = pure (job_of row result)

  -- `mapContentJob`
  unfoldable pub map_content_job : ContentJobRow → Db Tables ContentJob
  unfolding mapped
  map_content_job row = mapped row (stored_result row.result)

  -- `row ? mapContentJob(row) : null`
  unfoldable pub map_optional : Option ContentJobRow → Db Tables (Option ContentJob)
  map_optional none = pure none
  map_optional (some row) = do job ← map_content_job row; pure (some job)

  -- behind the UPDATE of a method: `null` if no row was updated, else the event and the job
  unfoldable pub logged :
      (ContentJobRow → Db Tables (Unit {0})) → Option ContentJobRow → Db Tables (Option ContentJob)
  logged log none = pure none
  logged log (some updated) = do log updated; job ← map_content_job updated; pure (some job)

-- the row of a job, by tenant and id
abbrev pub names_job : String → String → ContentJobRow → Bool
names_job tenant_id job_id r = str_eq r.id job_id && str_eq r.tenant_id tenant_id

-- no lease that is still to expire: `is null` or `<= now`
abbrev pub is_free : ℕ → ContentJobRow → Bool
is_free now r = is_none r.lease_expires_at || holds (λ t. leb t now) r.lease_expires_at
