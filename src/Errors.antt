-- ===== src/Errors.antt =====
-- src/platform/shared/errors (the platform's errors and their codes),
-- src/infrastructure/publish-engine/publish-engine-errors.ts (one class for each way in which the
-- publish engine fails) and src/infrastructure/repositories/error-utils.ts.
-- `Thrown` is what a `catch (error)` of the modelled code can receive.
use roam_content_engine.Prelude.{ℕ, String, Bool, true, false, if◌then◌else◌}

pub data Thrown : Type 0 where
  -- the subclasses of PublishEngineError, by the message
  configuration authentication transport timeout cancelled protocol : String → Thrown
  retry_exhausted job_failed job_cancelled wait_timeout artifact_invalid : String → Thrown
  -- PublishEngineRemoteRequestError, by its status and message, and its subclass of status 409
  remote_request : ℕ → String → Thrown
  idempotency_conflict : String → Thrown
  -- PlatformError, ValidationError, ConflictError and NotFoundError, by code and message
  platform : String → String → Thrown
  -- an error of the driver with code 23505, and any other Error
  unique_violation plain_error : String → Thrown
  -- PublishLeaseLostError of the executor
  lease_lost : Thrown
  -- a thrown value that is no Error
  non_error : Thrown

unfoldable pub validation : String → Thrown
validation message = platform "VALIDATION_ERROR" message

unfoldable pub conflict : String → String → Thrown
conflict code message = platform code message

unfoldable pub not_found : String → Thrown
not_found message = platform "RESOURCE_NOT_FOUND" message

-- `error instanceof PlatformError`
unfoldable pub is_platform : Thrown → Bool
is_platform (unique_violation _) = false
is_platform (plain_error _) = false
is_platform lease_lost = false
is_platform non_error = false
is_platform _ = true

unfoldable pub is_unique_violation : Thrown → Bool
is_unique_violation (unique_violation _) = true
is_unique_violation _ = false

-- The first argument keeps a PlatformError, and wraps anything else.
unfoldable pub to_database_unavailable : Thrown → String → Thrown
unfolding is_platform
to_database_unavailable e message =
    if is_platform e then e else platform "DATABASE_UNAVAILABLE" message
