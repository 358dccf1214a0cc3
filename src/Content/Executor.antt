-- ===== src/Content/Executor.antt =====
-- JobExecutor (src/application/workers/job-executor.ts): one leased job is processed, while its lease
-- is renewed, and its row is settled by what comes of it. The logger is left out.
-- The processor is an interface: what it does is a tree of the calls that it makes, each of which
-- goes on by how the call ended, with what happens to the executor meanwhile (the timer of the
-- heartbeat fires, the worker's signal is aborted) at its place among them. An awaited operation is an
-- action of the session, so that what other workers write while it is awaited is part of it. Two renewals
-- are not under way at once.

pub mod Truth
pub mod Invariants
pub mod Keeps
use roam_content_engine.Prelude.{
  ℕ, ◌+◌, String, Bool, true, false, Option, none, some, ◌⊎◌, inl, inr, ◌||◌, ltb, leb, str_eq,
  slice_to, utf16_length, if◌then◌else◌,
}
use roam_content_engine.Errors.{Thrown}
use roam_content_engine.Json.{Json}
use roam_content_engine.Db.{crashed, Db, ◌>>=◌, ◌>>◌, pure, throw, catching, now}
use roam_content_engine.Retry.{RetryPolicyConfig, RetryDecision, give_up, retry_at, evaluate_retry}
use roam_content_engine.Content.Types.{ContentJob, ContentJobStage, WorkerLeasedJob, Tables}
use roam_content_engine.Content.Results.{Externals}
use roam_content_engine.Content.Source.{
  Caller, renew_lease, mark_stage, mark_completed, schedule_retry, mark_failed,
}

-- src/domain/workers/worker-errors.ts, and any other error that a processor can throw
pub data WorkerError : Type 0 where
  -- by message and code
  retryable permanent : String → String → WorkerError
  worker_lease_lost worker_cancelled : WorkerError
  other : Thrown → WorkerError

pub data Process : Type 0 where
  returns : Json → Process
  raises : WorkerError → Process
  -- `await reportStage(stage)`, `await heartbeat()`, and any other awaited call
  reports : ContentJobStage → (Option WorkerError → Process) → Process
  beats : (Option WorkerError → Process) → Process
  awaits : Db Tables (Unit {0}) → (Option WorkerError → Process) → Process
  -- the signal that it is given is read
  reads_signal : (Bool → Process) → Process
  -- the sleep of the heartbeat's loop ends; the worker's signal is aborted
  timer_fires signal_aborts : Process → Process

pub record Dependencies : Type 0 where
  -- the processor of type 'transcript-processing', if there is one
  pub processor : Option (WorkerLeasedJob → Process)
  pub lease_duration_ms : ℕ
  pub retry_policy : RetryPolicyConfig
  pub max_attempts : ℕ
  -- what `random()` returns, if the policy asks for it
  pub draw : ℕ

pub data JobExecutionOutcome : Type 0 where
  completed retry_scheduled failed lease_lost cancelled : JobExecutionOutcome

-- `leaseLost`, and the job's own abort controller
pub record Flags : Type 0 where
  pub lost : Bool
  pub aborted : Bool

pub data Ending : Type 0 where
  returned : Json → Ending
  raised : WorkerError → Ending

-- a call whose failure is a value
unfoldable pub attempt : {A : Type 0} → Db Tables A → Db Tables (Thrown ⊎ A)
attempt m = catching (do a ← m; pure (inr a)) (λ e. pure (inl e))

-- an unhandled rejection ends the process
unfoldable pub crash : {A : Type 0} → Db Tables A
crash s = (crashed, s)

abbrev pub caller : WorkerLeasedJob → ℕ → Caller
caller job at = record {
  tenant_id = job.base.tenant_id;
  job_id = job.base.id;
  worker_id = job.lease_owner;
  now = at;
}

-- `sanitizeErrorMessage`
unfoldable pub sanitize_error_message : String → String
sanitize_error_message message =
    if ltb 500 (utf16_length message) then slice_to 500 message else message

-- `classifyError`: retryable or not, with the message and the code that are stored
pub record MappedError : Type 0 where
  pub is_retryable : Bool
  pub message : String
  pub code : String

abbrev unexpected : MappedError
unexpected = record {
  is_retryable = true;
  message = "Unexpected processor failure.";
  code = "WORKER_UNEXPECTED_ERROR";
}

unfoldable pub classify_error : WorkerError → MappedError
classify_error (retryable message code) = record {
  is_retryable = true;
  message = message;
  code = code;
}
classify_error (permanent message code) = record {
  is_retryable = false;
  message = message;
  code = code;
}
classify_error (other (Thrown.platform code message)) =
    if str_eq code "DATABASE_UNAVAILABLE"
    then (record {
      is_retryable = true;
      message = "Database was temporarily unavailable.";
      code = "DATABASE_UNAVAILABLE";
    })
    else unexpected
classify_error (other _) = unexpected
classify_error worker_lease_lost = unexpected
classify_error worker_cancelled = unexpected

-- how a renewal ends, and the flags behind it
abbrev pub renewal_result : Flags → Thrown ⊎ Option WorkerLeasedJob → Option WorkerError × Flags
renewal_result f (inl e) = (some (other e), f)
renewal_result f (inr none) = (some worker_lease_lost, record { lost = true; aborted = true })
renewal_result f (inr (some _)) = (none, f)

-- a round of `heartbeatLoop`: a lost lease ends the loop, any other failure rejects its promise
abbrev pub tick_result : Option WorkerError × Flags → Db Tables Flags
tick_result (some (other e), f) = crash
tick_result (_, f) = pure f

abbrev pub stage_result : Flags → Thrown ⊎ Option WorkerLeasedJob → Option WorkerError × Flags
stage_result f (inl e) = (some (other e), f)
stage_result f (inr none) = (some worker_lease_lost, record { lost = true; aborted = f.aborted })
stage_result f (inr (some _)) = (none, f)

abbrev pub awaited : Thrown ⊎ Unit {0} → Option WorkerError
awaited (inl e) = some (other e)
awaited (inr _) = none

-- `if (!failed) throw new LeaseLostError()`
abbrev pub or_lost : {A : Type 0} → A → Option ContentJob → Db Tables A
or_lost a none = throw Thrown.lease_lost
or_lost a (some _) = pure a

-- `error.code === WORKER_CANCELLED ? 'cancelled' : …`
abbrev pub unless_cancelled : String → JobExecutionOutcome → JobExecutionOutcome
unless_cancelled code outcome =
    if str_eq code "WORKER_CANCELLED" then JobExecutionOutcome.cancelled else outcome

-- the `catch (error)` block
abbrev pub is_lost_error : WorkerError → Bool
is_lost_error worker_lease_lost = true
is_lost_error _ = false

abbrev pub is_cancelled_error : WorkerError → Bool
is_cancelled_error worker_cancelled = true
is_cancelled_error _ = false

-- behind `markCompleted`
abbrev pub completed_or_lost : Option ContentJob → Db Tables JobExecutionOutcome
completed_or_lost none = pure JobExecutionOutcome.lease_lost
completed_or_lost (some _) = pure JobExecutionOutcome.completed

module _ (x : Externals) (deps : Dependencies) (job : WorkerLeasedJob) where
  -- `renewLeaseOnce`, on its way through `requestHeartbeat`
  unfoldable pub renew_lease_once : Flags → Db Tables (Option WorkerError × Flags)
  unfolding attempt
  renew_lease_once f = if f.aborted then pure (none, f) else (do
    at ← now
    r ← attempt (renew_lease x (caller job at) deps.lease_duration_ms)
    pure (renewal_result f r))

  -- `reportStage`
  unfoldable pub report_stage : ContentJobStage → Flags → Db Tables (Option WorkerError × Flags)
  unfolding attempt
  report_stage stage f = do
    at ← now
    r ← attempt (mark_stage x (caller job at) stage)
    pure (stage_result f r)

  -- `processor.process(…)` to its end
  unfoldable pub run_process : Process → Flags → Db Tables (Ending × Flags)
  unfolding renew_lease_once report_stage attempt crash
  run_process (returns result) f = pure (returned result, f)
  run_process (raises e) f = pure (raised e, f)
  run_process (reports stage k) f = report_stage stage f >>= λ r. run_process (k r.0) r.1
  run_process (beats k) f = renew_lease_once f >>= λ r. run_process (k r.0) r.1
  run_process (awaits m k) f = attempt m >>= λ r. run_process (k (awaited r)) f
  run_process (reads_signal k) f = run_process (k f.aborted) f
  run_process (timer_fires p) f = renew_lease_once f >>= λ r. tick_result r >>= λ g. run_process p g
  run_process (signal_aborts p) f = run_process p (record f { aborted = true })

  -- `markPermanentFailure`, and what is returned behind it
  unfoldable pub mark_permanent_failure :
      String → String → JobExecutionOutcome → Db Tables JobExecutionOutcome
  unfolding sanitize_error_message
  mark_permanent_failure message code outcome = do
    at ← now
    failed_job ← mark_failed x (caller job at) code (sanitize_error_message message)
    or_lost outcome failed_job

  -- by `!decision.shouldRetry || job.attemptCount >= maxAttempts`
  unfoldable pub retry_or_fail : String → String → ℕ → RetryDecision → Db Tables JobExecutionOutcome
  unfolding mark_permanent_failure
  retry_or_fail message code at give_up =
      mark_permanent_failure (sanitize_error_message message) "WORKER_MAX_ATTEMPTS_EXCEEDED"
        (unless_cancelled code JobExecutionOutcome.failed)
  retry_or_fail message code at (retry_at delay_ms attempt_at) =
      if leb deps.max_attempts job.base.attempt_count
      then mark_permanent_failure (sanitize_error_message message) "WORKER_MAX_ATTEMPTS_EXCEEDED"
          (unless_cancelled code JobExecutionOutcome.failed)
      else (schedule_retry x (caller job at) code (sanitize_error_message message) attempt_at
          >>= or_lost (unless_cancelled code JobExecutionOutcome.retry_scheduled))

  unfoldable pub schedule_retry_or_fail : String → String → Db Tables JobExecutionOutcome
  unfolding retry_or_fail
  schedule_retry_or_fail message code = do
    at ← now
    retry_or_fail message code at
        (evaluate_retry job.base.attempt_count at true deps.retry_policy deps.draw)

  unfoldable pub settle_error : MappedError → Db Tables JobExecutionOutcome
  unfolding schedule_retry_or_fail mark_permanent_failure
  settle_error e =
      if e.is_retryable
      then schedule_retry_or_fail e.message e.code
      else mark_permanent_failure e.message e.code JobExecutionOutcome.failed

  unfoldable pub recover_from : Flags → WorkerError → Db Tables JobExecutionOutcome
  unfolding settle_error classify_error
  recover_from f e =
      if f.lost || is_lost_error e
      then pure JobExecutionOutcome.lease_lost
      else if f.aborted || is_cancelled_error e
      then pure JobExecutionOutcome.cancelled
      else settle_error (classify_error e)

  -- what is done with the end of the processing; a failure of `markCompleted` is caught too
  unfoldable pub settle_ending : Ending × Flags → Db Tables JobExecutionOutcome
  unfolding recover_from
  settle_ending (raised e, f) = recover_from f e
  settle_ending (returned result, f) =
      if f.lost
      then pure JobExecutionOutcome.lease_lost
      else (catching
          (do
            at ← now
            job' ← mark_completed x (caller job at) (some result)
            completed_or_lost job')
          (λ e. recover_from f (other e)))

  unfoldable pub execute_with :
      Option (WorkerLeasedJob → Process) → Bool → Db Tables JobExecutionOutcome
  unfolding run_process settle_ending mark_permanent_failure
  execute_with none aborted =
      mark_permanent_failure "Unsupported job type: transcript-processing"
        "WORKER_UNSUPPORTED_JOB_TYPE" JobExecutionOutcome.failed
  execute_with (some process) aborted = do
    ending ← run_process (process job) (record { lost = false; aborted = aborted })
    settle_ending ending

  unfoldable pub execute : Bool → Db Tables JobExecutionOutcome
  unfolding execute_with
  execute aborted = execute_with deps.processor aborted
