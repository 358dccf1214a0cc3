-- ===== src/Publish/Heartbeat.antt =====
-- `withHeartbeat` of src/application/publish-jobs/publish-job-executor.ts, and what the executor is
-- given: while an operation is awaited, a timer renews the lease of its job.
use roam_content_engine.Prelude.{
  ℕ, zero, suc, Bool, true, false, ◌||◌, is_some, coalesce, if◌then◌else◌,
}
use roam_content_engine.Errors.{Thrown}
use roam_content_engine.Db.{Result, ok, thrown, crashed, Session, Db, ◌>>=◌, pure, throw, now}
use roam_content_engine.Retry.{RetryPolicyConfig}
use roam_content_engine.Publish.Types.{PublishJob, Tables}
use roam_content_engine.Publish.Engine.{PublishEngineClient}
use roam_content_engine.Publish.Statements.{Caller}
use roam_content_engine.Publish.Source.{renew_lease}
use roam_content_engine.Publish.Artifact.{Externals}

-- PublishJobExecutorDependencies. `beats` says how often the heartbeat timer fires while an
-- operation is awaited, and `draw` is the value of `random()`, if the policy asks for one.
pub record Dependencies : Type 0 where
  pub client : PublishEngineClient
  pub externals : Externals
  pub poll_interval_ms : ℕ
  pub lease_duration_ms : ℕ
  pub max_consecutive_failures : ℕ
  pub retry_policy : RetryPolicyConfig
  pub beats : ℕ
  pub draw : ℕ

abbrev pub caller : PublishJob → ℕ → Caller
caller job at = record {
  tenant_id = job.tenant_id;
  publish_job_id = job.id;
  worker_id = coalesce job.lease_owner "";
  now = at;
}

-- A renewal whose promise is rejected has no handler, and ends the process.
unfoldable pub unhandled {ℓ} : {A : Type ℓ} → Result A × Session Tables → Result A × Session Tables
unhandled (ok a, s) = (ok a, s)
unhandled (thrown e, s) = (crashed, s)
unhandled (crashed, s) = (crashed, s)

module _ (deps : Dependencies) where
  -- the ticks of the timer, until the lease is lost: `leaseLost` at the end
  unfoldable pub heartbeats : ℕ → PublishJob → Db Tables Bool
  unfolding unhandled
  heartbeats zero job = pure false
  heartbeats (suc n) job = do
    at ← now
    renewed ← λ s. unhandled (renew_lease (caller job at) deps.lease_duration_ms s)
    if is_some renewed then heartbeats n job else pure true

  -- `withHeartbeat`: the operation sees the aborted signal, and its result is dropped if the lease
  -- was lost; under an aborted signal the timer renews nothing
  unfoldable pub with_heartbeat {ℓ} :
      {A : Type ℓ} → PublishJob → Bool → (Bool → Db Tables A) → Db Tables A
  unfolding heartbeats
  with_heartbeat job aborted operation = do
    lost ← heartbeats (if aborted then 0 else deps.beats) job
    result ← operation (aborted || lost)
    if lost then throw Thrown.lease_lost else pure result
