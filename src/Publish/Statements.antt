-- ===== src/Publish/Statements.antt =====
-- The statements that src/infrastructure/repositories/drizzle-publish-job-repository.ts and
-- src/infrastructure/publish-jobs/database-publish-job-source.ts share.
use Prim.Native.String.{◌++◌ as str_append}
use roam_content_engine.Prelude.{
  ℕ, String, Bool, Option, none, some, List, [], ◌∷◌, ◌++◌, ◌&&◌, ◌||◌, ltb, leb, holds, is_none,
  str_eq, refl,
}
use roam_content_engine.Db.{Db, ◌>>=◌, ◌>>◌, pure, statement, draw}
use roam_content_engine.Db.Rows.{Table, update_rows}
use roam_content_engine.Publish.Types.{
  PublishJob, PublishJobStatus, PublishJobEventType, Detail, Tables, same_status,
}

abbrev pub publish_table : Table Tables PublishJob
publish_table = record {
  rows = λ t. t.publish_jobs;
  put = λ rs t. record t { publish_jobs = rs };
  rows_put = λ rs t. refl;
}

-- UPDATE publish_jobs SET … WHERE … RETURNING *, of which the code reads the first row
unfoldable pub update_jobs :
    (PublishJob → Bool) → (PublishJob → PublishJob) → Db Tables (Option PublishJob)
update_jobs cond set = update_rows publish_table cond set

-- INSERT INTO publish_job_events, with an id from `createPublishJobEventId()`, a prefix and a ULID
unfoldable pub insert_event :
    PublishJob
    → PublishJobEventType
    → Option PublishJobStatus
    → Option PublishJobStatus
    → Option (List (String × Detail))
    → ℕ
    → Db Tables (Unit {0})
insert_event job event_type prior_status new_status details created_at = do
  id ← draw
  statement λ t. (
    tt,
    record t {
      publish_job_events =
          t.publish_job_events
          ++ record {
            id = str_append "pevt_" id;
            tenant_id = job.tenant_id;
            publish_job_id = job.id;
            event_type = event_type;
            prior_status = prior_status;
            new_status = new_status;
            details = details;
            created_at = created_at;
          }
            ∷ [];
    },
  )

-- The rest of a method behind its UPDATE: `null` if no row was updated, else the events and the row.
unfoldable pub logged :
    (PublishJob → Db Tables (Unit {0})) → Option PublishJob → Db Tables (Option PublishJob)
logged log none = pure none
logged log (some updated) = do log updated; pure (some updated)

-- Who calls a method, on which job, and when.
pub record Caller : Type 0 where
  pub tenant_id : String
  pub publish_job_id : String
  pub worker_id : String
  pub now : ℕ

-- The row of a job, by tenant and id.
abbrev pub names_job : String → String → PublishJob → Bool
names_job tenant_id job_id r = str_eq r.tenant_id tenant_id && str_eq r.id job_id

-- The job is being processed by this worker (the name is trimmed by then).
abbrev pub is_owner : Caller → String → PublishJob → Bool
is_owner c worker_id r =
    names_job c.tenant_id c.publish_job_id r
    && same_status r.status PublishJobStatus.processing
    && holds (λ o. str_eq o worker_id) r.lease_owner

-- … and its lease has not expired: `gt(publishJobs.leaseExpiresAt, input.now)`
abbrev pub holds_lease : Caller → String → PublishJob → Bool
holds_lease c worker_id r = is_owner c worker_id r && holds (ltb c.now) r.lease_expires_at

-- No lease that is still to expire: `is null` or `lte(…, now)`
abbrev pub is_free : ℕ → PublishJob → Bool
is_free now r = is_none r.lease_expires_at || holds (λ t. leb t now) r.lease_expires_at

-- The four assignments that give a lease up.
abbrev pub release : ℕ → PublishJob → PublishJob
release now r = record r {
  lease_owner = none;
  lease_expires_at = none;
  heartbeat_at = none;
  updated_at = now;
}

-- … and those that end a job.
abbrev pub unschedule : PublishJob → PublishJob
unschedule r = record r { next_poll_at = none; next_attempt_at = none }
