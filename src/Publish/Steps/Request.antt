-- ===== src/Publish/Steps/Request.antt =====
-- What a step never changes, and what it can only let grow.
use roam_content_engine.Prelude.{ℕ, String, ◌≤◌, ◌≡◌, refl, arith}
use roam_content_engine.Publish.Types.{PublishJob}
use roam_content_engine.Publish.Steps.{
  RowStep, stays, claims, renews, stages, submits, waits, retries, completes, fails, calls_off,
  cancels, recovers,
}

-- The fields that say what is to be published, for whom and under which keys.
pub record SameRequest (r r' : PublishJob) : Type 0 where
  pub id : r'.id ≡ r.id
  pub tenant : r'.tenant_id ≡ r.tenant_id
  pub project : r'.project_id ≡ r.project_id
  pub source : r'.source_content_job_id ≡ r.source_content_job_id
  pub snapshot : r'.source_artifact_snapshot ≡ r.source_artifact_snapshot
  pub mode : r'.publish_mode ≡ r.publish_mode
  pub format : r'.output_format ≡ r.output_format
  pub options : r'.render_options ≡ r.render_options
  pub metadata : r'.publication_metadata ≡ r.publication_metadata
  pub key : r'.idempotency_key ≡ r.idempotency_key
  pub fingerprint : r'.request_fingerprint ≡ r.request_fingerprint
  pub remote_key : r'.remote_submission_idempotency_key ≡ r.remote_submission_idempotency_key
  pub created : r'.created_at ≡ r.created_at

pub SameRequest-refl : (r : PublishJob) → SameRequest r r
SameRequest-refl r = assumption refl

pub SameRequest-trans : (x y z : PublishJob) → SameRequest x y → SameRequest y z → SameRequest x z
SameRequest-trans x y z p q = ground arith

pub RowStep-SameRequest :
    {now : ℕ} {who : String} {r r' : PublishJob} → RowStep now who r r' → SameRequest r r'
RowStep-SameRequest stays = assumption refl
RowStep-SameRequest (claims _ _ _) = assumption refl
RowStep-SameRequest (renews _ _) = assumption refl
RowStep-SameRequest (stages _ _) = assumption refl
RowStep-SameRequest (submits _ _ _ _ _ _) = assumption refl
RowStep-SameRequest (waits _ _ _ _ _) = assumption refl
RowStep-SameRequest (retries _ _ _ _) = assumption refl
RowStep-SameRequest (completes _ _ polled_at _ _) = ground arith
RowStep-SameRequest (fails _ _ _ _ polled_at _) = ground arith
RowStep-SameRequest (calls_off _ _ polled_at _) = ground arith
RowStep-SameRequest (cancels _) = assumption refl
RowStep-SameRequest (recovers _ _ _ _) = ground arith

-- The counters of attempts and polls.
pub RowStep-counts :
    {now : ℕ} {who : String} {r r' : PublishJob}
    → RowStep now who r r'
    → (r.attempt_count ≤ r'.attempt_count) × (r.poll_count ≤ r'.poll_count)
RowStep-counts stays = omega arith
RowStep-counts _ = ground arith
