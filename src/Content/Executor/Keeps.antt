-- ===== src/Content/Executor/Keeps.antt =====
-- What the executor keeps of the tables: any relation that composes, that each step of a row keeps,
-- and that the processor's awaited calls keep (while one is awaited, other workers may write).
use roam_content_engine.Prelude.{
  ℕ, String, Bool, true, false, Option, none, some, refl, inl, inr, Bool-cases, ◌||◌, leb,
  if◌then◌else◌,
}
use roam_content_engine.Db.{Db, ◌>>=◌}
use roam_content_engine.Db.Moves.{
  Moves, Moves-Quiet, Moves-bind, Quiet, Quiet-pure, Quiet-throw, Moves-catching,
}
use roam_content_engine.Retry.{RetryDecision, give_up, retry_at}
use roam_content_engine.Content.Types.{ContentJob, ContentJobStage, WorkerLeasedJob, Tables}
use roam_content_engine.Content.Results.{Externals}
use roam_content_engine.Content.Steps.{RowStep}
use roam_content_engine.Content.Steps.Within.{Within}
use roam_content_engine.Content.Steps.Refinement
use roam_content_engine.Content.Steps.Refinement.Repository.{Quiet-now}
use roam_content_engine.Content.Executor.{
  Dependencies, JobExecutionOutcome, Process, returns, raises, reports, beats, awaits, reads_signal,
  timer_fires, signal_aborts, Ending, returned, raised, Flags, WorkerError, MappedError, caller,
  attempt, crash, classify_error, or_lost, mark_permanent_failure, retry_or_fail,
  schedule_retry_or_fail, settle_error, is_lost_error, is_cancelled_error, recover_from,
  completed_or_lost, settle_ending, execute_with, execute, renew_lease_once, report_stage,
  run_process, tick_result, awaited,
}

-- The awaited calls of the processor keep the relation, however it goes on.
abbrev pub IsKeptBy {κ} : (Tables → Tables → Type κ) → Process → Type κ
IsKeptBy R (returns result) = Unit
IsKeptBy R (raises e) = Unit
IsKeptBy R (reports stage k) = (o : Option WorkerError) → IsKeptBy R (k o)
IsKeptBy R (beats k) = (o : Option WorkerError) → IsKeptBy R (k o)
IsKeptBy R (awaits m k) = Moves R m × ((o : Option WorkerError) → IsKeptBy R (k o))
IsKeptBy R (reads_signal k) = (b : Bool) → IsKeptBy R (k b)
IsKeptBy R (timer_fires p) = IsKeptBy R p
IsKeptBy R (signal_aborts p) = IsKeptBy R p

-- the processor, if there is one, keeps the relation by its awaited calls
abbrev pub ProcessorKeeps {κ} :
    (Tables → Tables → Type κ) → Option (WorkerLeasedJob → Process) → WorkerLeasedJob → Type κ
ProcessorKeeps R none job = Unit
ProcessorKeeps R (some process) job = IsKeptBy R (process job)

Quiet-crash : {A : Type 0} → Quiet {T = Tables} (crash {A = A})
unfolding crash
Quiet-crash = record { at = λ s. refl }

Quiet-tick_result : (o : Option WorkerError) (f : Flags) → Quiet (tick_result (o, f))
Quiet-tick_result none f = Quiet-pure f
Quiet-tick_result (some (WorkerError.other e)) f = Quiet-crash
Quiet-tick_result (some (WorkerError.retryable m c)) f = Quiet-pure f
Quiet-tick_result (some (WorkerError.permanent m c)) f = Quiet-pure f
Quiet-tick_result (some WorkerError.worker_lease_lost) f = Quiet-pure f
Quiet-tick_result (some WorkerError.worker_cancelled) f = Quiet-pure f

module _ {κ} (R : Tables → Tables → Type κ) (same : (t : Tables) → R t t)
    (comp : (t u v : Tables) → R t u → R u v → R t v)
    (step : (at : ℕ) (who : String) (t u : Tables) → Within (RowStep at who) t u → R t u)
    (x : Externals) (deps : Dependencies) (job : WorkerLeasedJob) where
  quiet : {A : Type 0} (m : Db Tables A) → Quiet m → Moves R m
  quiet = Moves-Quiet R same

  chain :
      {A B : Type 0} (m : Db Tables A) (f : A → Db Tables B)
      → Moves R m
      → ((a : A) → Moves R (f a))
      → Moves R (m >>= f)
  chain = Moves-bind R R R (λ t u r. r) comp

  stepped :
      {A : Type 0} (at : ℕ) (who : String) (m : Db Tables A)
      → Moves (Within (RowStep at who)) m
      → Moves R m
  stepped at who m k = record { at = λ s. step at who _ _ (k.at s) }

  tested :
      {A : Type 0} (b : Bool) (m n : Db Tables A)
      → Moves R m
      → Moves R n
      → Moves R (if b then m else n)
  tested true m n k l = k
  tested false m n k l = l

  attempt-Moves : {A : Type 0} (m : Db Tables A) → Moves R m → Moves R (attempt m)
  unfolding attempt
  attempt-Moves m k =
      Moves-catching R comp _ _ (chain _ _ k (λ a. quiet _ (Quiet-pure _)))
        (λ e. quiet _ (Quiet-pure _))

  renew_lease_once-Moves : (f : Flags) → Moves R (renew_lease_once x deps job f)
  unfolding renew_lease_once
  renew_lease_once-Moves f = elim (Bool-cases f.aborted) [
    | inl e ↦ rw e (quiet _ (Quiet-pure _))
    | inr e ↦ rw e (
        chain _ _ (quiet _ Quiet-now) (λ at.
          chain _ _
            (attempt-Moves _ (
              stepped at _ _
                (Refinement.Source.renew_lease-Within x (caller job at) deps.lease_duration_ms)))
            (λ r. quiet _ (Quiet-pure _))))
  ]

  report_stage-Moves :
      (stage : ContentJobStage) (f : Flags) → Moves R (report_stage x deps job stage f)
  unfolding report_stage
  report_stage-Moves stage f = chain _ _ (quiet _ Quiet-now) (λ at.
      chain _ _
        (attempt-Moves _
          (stepped at _ _ (Refinement.Source.mark_stage-Within x (caller job at) stage)))
        (λ r. quiet _ (Quiet-pure _)))

  run_process-Moves :
      (p : Process) (f : Flags) → IsKeptBy R p → Moves R (run_process x deps job p f)
  unfolding run_process
  run_process-Moves (returns result) f k = quiet _ (Quiet-pure _)
  run_process-Moves (raises e) f k = quiet _ (Quiet-pure _)
  run_process-Moves (reports stage p) f k =
      chain _ _ (report_stage-Moves stage f) (λ r. run_process-Moves (p r.0) r.1 (k r.0))
  run_process-Moves (beats p) f k =
      chain _ _ (renew_lease_once-Moves f) (λ r. run_process-Moves (p r.0) r.1 (k r.0))
  run_process-Moves (awaits m p) f k =
      chain _ _ (attempt-Moves m k.0) (λ r. run_process-Moves (p (awaited r)) f (k.1 (awaited r)))
  run_process-Moves (reads_signal p) f k = run_process-Moves (p f.aborted) f (k f.aborted)
  run_process-Moves (timer_fires p) f k =
      chain _ _ (renew_lease_once-Moves f)
        (λ r. chain _ _ (quiet _ (Quiet-tick_result r.0 r.1)) (λ g. run_process-Moves p g k))
  run_process-Moves (signal_aborts p) f k = run_process-Moves p (record f { aborted = true }) k

  or_lost-Moves : (o : JobExecutionOutcome) (r : Option ContentJob) → Moves R (or_lost o r)
  or_lost-Moves o none = quiet _ (Quiet-throw _)
  or_lost-Moves o (some r) = quiet _ (Quiet-pure o)

  mark_permanent_failure-Moves :
      (message code : String) (o : JobExecutionOutcome)
      → Moves R (mark_permanent_failure x deps job message code o)
  unfolding mark_permanent_failure
  mark_permanent_failure-Moves message code o = chain _ _ (quiet _ Quiet-now) (λ at.
      chain _ _ (stepped at _ _ (Refinement.Source.mark_failed-Within x (caller job at) _ _))
        (or_lost-Moves o))

  retry_or_fail-Moves :
      (message code : String) (at : ℕ) (decision : RetryDecision)
      → Moves R (retry_or_fail x deps job message code at decision)
  unfolding retry_or_fail
  retry_or_fail-Moves message code at give_up = mark_permanent_failure-Moves _ _ _
  retry_or_fail-Moves message code at (retry_at delay_ms attempt_at) =
      elim (Bool-cases (leb deps.max_attempts job.base.attempt_count)) [
        | inl e ↦ rw e (mark_permanent_failure-Moves _ _ _)
        | inr e ↦ rw e (
            chain _ _
              (stepped at _ _ (Refinement.Source.schedule_retry-Within x (caller job at) _ _ _))
              (or_lost-Moves _))
      ]

  settle_error-Moves : (e : MappedError) → Moves R (settle_error x deps job e)
  unfolding settle_error schedule_retry_or_fail
  settle_error-Moves e = elim (Bool-cases e.is_retryable) [
    | inl r ↦ rw r (chain _ _ (quiet _ Quiet-now) (λ at. retry_or_fail-Moves e.message e.code at _))
    | inr r ↦ rw r (mark_permanent_failure-Moves _ _ _)
  ]

  recover_from-Moves : (f : Flags) (e : WorkerError) → Moves R (recover_from x deps job f e)
  unfolding recover_from
  recover_from-Moves f e = elim (Bool-cases (f.lost || is_lost_error e)) [
    | inl l ↦ rw l (quiet _ (Quiet-pure _))
    | inr l ↦ rw l (elim (Bool-cases (f.aborted || is_cancelled_error e)) [
      | inl c ↦ rw c (quiet _ (Quiet-pure _))
      | inr c ↦ rw c (settle_error-Moves (classify_error e))
    ])
  ]

  completed_or_lost-Moves : (r : Option ContentJob) → Moves R (completed_or_lost r)
  completed_or_lost-Moves none = quiet _ (Quiet-pure _)
  completed_or_lost-Moves (some r) = quiet _ (Quiet-pure _)

  settle_ending-Moves : (e : Ending) (f : Flags) → Moves R (settle_ending x deps job (e, f))
  unfolding settle_ending
  settle_ending-Moves (raised e) f = recover_from-Moves f e
  settle_ending-Moves (returned result) f = tested f.lost _ _ (quiet _ (Quiet-pure _)) (
      Moves-catching R comp _ _
        (chain _ _ (quiet _ Quiet-now) (λ at.
          chain _ _ (stepped at _ _ (Refinement.Source.mark_completed-Within x (caller job at) _))
            completed_or_lost-Moves))
        (λ e. recover_from-Moves f (WorkerError.other e)))

  execute_with-Moves :
      (p : Option (WorkerLeasedJob → Process)) (aborted : Bool)
      → ProcessorKeeps R p job
      → Moves R (execute_with x deps job p aborted)
  unfolding execute_with
  execute_with-Moves none aborted k = mark_permanent_failure-Moves _ _ _
  execute_with-Moves (some process) aborted k =
      chain _ _ (run_process-Moves (process job) _ k) (λ r. settle_ending-Moves r.0 r.1)

  pub execute-Moves :
      (aborted : Bool) → ProcessorKeeps R deps.processor job → Moves R (execute x deps job aborted)
  unfolding execute
  execute-Moves aborted k = execute_with-Moves deps.processor aborted k
