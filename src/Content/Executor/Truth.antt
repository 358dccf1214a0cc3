-- ===== src/Content/Executor/Truth.antt =====
-- The outcome that the executor reports is what the table says.
use roam_content_engine.Prelude.{
  ℕ, String, Bool, true, false, Option, none, some, ◌≡◌, refl, ◌⊎◌, inl, inr, Bool-cases, leb,
  str_eq, is_some, ◌||◌, if◌then◌else◌,
}
use roam_content_engine.Db.{Db, Session, ok, ◌>>=◌}
use roam_content_engine.Db.Ensures.{
  Ensures, Ensures-pure, Ensures-throw, Ensures-catching, Ensures-bind, Ensures-then,
}
use roam_content_engine.Db.Moves.{Quiet, Quiet-pure, Quiet-throw}
use roam_content_engine.Db.Found.{Has}
use roam_content_engine.Retry.{RetryDecision, give_up, retry_at}
use roam_content_engine.Content.Types.{ContentJob, ContentJobStatus, WorkerLeasedJob, Tables}
use roam_content_engine.Content.Results.{Externals}
use roam_content_engine.Content.Statements.{content_table}
use roam_content_engine.Content.Source.Settled.{
  is_left_as, Left, mark_completed-Left, schedule_retry-Left, mark_failed-Left,
}
use roam_content_engine.Content.Executor.{
  Dependencies, JobExecutionOutcome, Process, Ending, returned, raised, Flags, WorkerError,
  MappedError, caller, classify_error, or_lost, mark_permanent_failure, unless_cancelled,
  retry_or_fail, schedule_retry_or_fail, settle_error, is_lost_error, is_cancelled_error,
  recover_from, completed_or_lost, settle_ending, execute_with, execute,
}

-- The table has the job as the outcome says; a lost lease and a cancellation say nothing.
abbrev pub Reported : String → String → JobExecutionOutcome → Tables → Type 0
Reported tenant_id job_id JobExecutionOutcome.completed t =
    Has content_table (is_left_as ContentJobStatus.completed tenant_id job_id) t
Reported tenant_id job_id JobExecutionOutcome.retry_scheduled t =
    Has content_table (is_left_as ContentJobStatus.retrying tenant_id job_id) t
Reported tenant_id job_id JobExecutionOutcome.failed t =
    Has content_table (is_left_as ContentJobStatus.failed tenant_id job_id) t
Reported tenant_id job_id JobExecutionOutcome.lease_lost t = Unit {0}
Reported tenant_id job_id JobExecutionOutcome.cancelled t = Unit {0}

module _ (x : Externals) (deps : Dependencies) (job : WorkerLeasedJob) where
  abbrev Reports : Db Tables JobExecutionOutcome → Type 0
  Reports m = Ensures (Reported job.base.tenant_id job.base.id) m

  abbrev HasLeft : ContentJobStatus → Tables → Type 0
  HasLeft status = Has content_table (is_left_as status job.base.tenant_id job.base.id)

  Quiet-or_lost : (o : JobExecutionOutcome) (r : Option ContentJob) → Quiet (or_lost o r)
  Quiet-or_lost o none = Quiet-throw _
  Quiet-or_lost o (some r) = Quiet-pure o

  or_lost-returns :
      (o : JobExecutionOutcome) (r : Option ContentJob)
      → Ensures (λ b _. (b ≡ o) × (is_some r ≡ true)) (or_lost o r)
  or_lost-returns o none = Ensures-throw _ _
  or_lost-returns o (some r) = Ensures-pure _ o (λ t. (refl, refl))

  -- a call that gives the job up, and the outcome if it was still leased
  settled :
      (status : ContentJobStatus) (at : ℕ) (o : JobExecutionOutcome)
      (m : Db Tables (Option ContentJob))
      → ((t : Tables) → HasLeft status t → Reported job.base.tenant_id job.base.id o t)
      → Ensures (Left x (caller job at) status) m
      → Reports (m >>= or_lost o)
  settled status at o m f k =
      Ensures-then _ (Left x (caller job at) status) ◌≡◌ (λ r b. (b ≡ o) × (is_some r ≡ true)) _ _ k
        (Quiet-or_lost o) (or_lost-returns o) (λ r b t u h e v. rw (v.0, ← e) (f t (h v.1)))

  unless_cancelled-Reported :
      (code : String) (o : JobExecutionOutcome) (t : Tables)
      → Reported job.base.tenant_id job.base.id o t
      → Reported job.base.tenant_id job.base.id (unless_cancelled code o) t
  unless_cancelled-Reported code o t h = elim (Bool-cases (str_eq code "WORKER_CANCELLED")) [
    | inl e ↦ rw e tt
    | inr e ↦ rw e h
  ]

  mark_permanent_failure-Reports :
      (message code : String) (o : JobExecutionOutcome)
      → ((t : Tables)
          → HasLeft ContentJobStatus.failed t
          → Reported job.base.tenant_id job.base.id o t)
      → Reports (mark_permanent_failure x deps job message code o)
  unfolding mark_permanent_failure
  mark_permanent_failure-Reports message code o f =
      Ensures-bind _ _ _
        (λ at. settled ContentJobStatus.failed at o _ f (mark_failed-Left x (caller job at) _ _))

  exhausted-Reports :
      (message code : String)
      → Reports (
          mark_permanent_failure x deps job message "WORKER_MAX_ATTEMPTS_EXCEEDED"
            (unless_cancelled code JobExecutionOutcome.failed))
  exhausted-Reports message code =
      mark_permanent_failure-Reports message _ _
        (λ t. unless_cancelled-Reported code JobExecutionOutcome.failed t)

  retry_or_fail-Reports :
      (message code : String) (at : ℕ) (decision : RetryDecision)
      → Reports (retry_or_fail x deps job message code at decision)
  unfolding retry_or_fail
  retry_or_fail-Reports message code at give_up = exhausted-Reports _ code
  retry_or_fail-Reports message code at (retry_at delay_ms attempt_at) =
      elim (Bool-cases (leb deps.max_attempts job.base.attempt_count)) [
        | inl e ↦ rw e (exhausted-Reports _ code)
        | inr e ↦ rw e (
            settled ContentJobStatus.retrying at _ _
              (λ t. unless_cancelled-Reported code JobExecutionOutcome.retry_scheduled t)
              (schedule_retry-Left x (caller job at) _ _ _))
      ]

  settle_error-Reports : (e : MappedError) → Reports (settle_error x deps job e)
  unfolding settle_error schedule_retry_or_fail
  settle_error-Reports e = elim (Bool-cases e.is_retryable) [
    | inl r ↦ rw r (Ensures-bind _ _ _ (λ at. retry_or_fail-Reports e.message e.code at _))
    | inr r ↦
        rw r (mark_permanent_failure-Reports e.message e.code JobExecutionOutcome.failed (λ t h. h))
  ]

  recover_from-Reports : (f : Flags) (e : WorkerError) → Reports (recover_from x deps job f e)
  unfolding recover_from
  recover_from-Reports f e = elim (Bool-cases (f.lost || is_lost_error e)) [
    | inl l ↦ rw l (Ensures-pure _ _ (λ t. tt))
    | inr l ↦ rw l (elim (Bool-cases (f.aborted || is_cancelled_error e)) [
      | inl c ↦ rw c (Ensures-pure _ _ (λ t. tt))
      | inr c ↦ rw c (settle_error-Reports (classify_error e))
    ])
  ]

  completed_or_lost-returns :
      (r : Option ContentJob)
      → Ensures
          (λ b _.
            (b ≡ JobExecutionOutcome.lease_lost)
            ⊎ ((b ≡ JobExecutionOutcome.completed) × (is_some r ≡ true)))
          (completed_or_lost r)
  completed_or_lost-returns none = Ensures-pure _ _ (λ t. inl refl)
  completed_or_lost-returns (some r) = Ensures-pure _ _ (λ t. inr (refl, refl))

  Quiet-completed_or_lost : (r : Option ContentJob) → Quiet (completed_or_lost r)
  Quiet-completed_or_lost none = Quiet-pure _
  Quiet-completed_or_lost (some r) = Quiet-pure _

  completed-Reported :
      (r : Option ContentJob) (b : JobExecutionOutcome) (t u : Tables)
      → (is_some r ≡ true → HasLeft ContentJobStatus.completed t)
      → t ≡ u
      → (b ≡ JobExecutionOutcome.lease_lost)
        ⊎ ((b ≡ JobExecutionOutcome.completed) × (is_some r ≡ true))
      → Reported job.base.tenant_id job.base.id b u
  completed-Reported r b t u h e (inl lost) = rw lost tt
  completed-Reported r b t u h e (inr done) = rw (done.0, ← e) (h done.1)

  tested :
      (b : Bool) (m n : Db Tables JobExecutionOutcome)
      → Reports m
      → Reports n
      → Reports (if b then m else n)
  tested true m n k l = k
  tested false m n k l = l

  settle_ending-Reports : (e : Ending) (f : Flags) → Reports (settle_ending x deps job (e, f))
  unfolding settle_ending
  settle_ending-Reports (raised e) f = recover_from-Reports f e
  settle_ending-Reports (returned result) f = tested f.lost _ _ (Ensures-pure _ _ (λ t. tt)) (
      Ensures-catching _ _ _
        (Ensures-bind _ _ _ (λ at.
          Ensures-then _ (Left x (caller job at) ContentJobStatus.completed) ◌≡◌
            (λ r b.
              (b ≡ JobExecutionOutcome.lease_lost)
              ⊎ ((b ≡ JobExecutionOutcome.completed) × (is_some r ≡ true)))
            _ _ (mark_completed-Left x (caller job at) (some result)) Quiet-completed_or_lost
            completed_or_lost-returns completed-Reported))
        (λ e. recover_from-Reports f (WorkerError.other e)))

  execute_with-Reports :
      (p : Option (WorkerLeasedJob → Process)) (aborted : Bool)
      → Reports (execute_with x deps job p aborted)
  unfolding execute_with
  execute_with-Reports none aborted =
      mark_permanent_failure-Reports _ _ JobExecutionOutcome.failed (λ t h. h)
  execute_with-Reports (some process) aborted =
      Ensures-bind _ _ _ (λ r. settle_ending-Reports r.0 r.1)

  -- If the executor returns completed, retry-scheduled or failed, the table has the job's row as
  -- completed, to be retried or failed, without a lease, whatever the processor does and
  -- whatever others write meanwhile.
  pub outcome_truthful :
      (aborted : Bool) (s : Session Tables) (outcome : JobExecutionOutcome)
      → (execute x deps job aborted s).0 ≡ ok outcome
      → Reported job.base.tenant_id job.base.id outcome (execute x deps job aborted s).1.tables
  unfolding execute
  outcome_truthful aborted = (execute_with-Reports deps.processor aborted).at
