-- ===== src/Publish/Executor/Truth.antt =====
-- The outcome that the executor reports is what the table says.
use roam_content_engine.Prelude.{
  ℕ, String, Bool, true, false, Option, none, some, ◌≡◌, refl, ◌⊎◌, inl, inr, Bool-cases, ◌+◌, leb,
  eq_iff, is_some, &&-true, str_eq,
}
use roam_content_engine.Errors.{Thrown}
use roam_content_engine.Db.{Db, Session, ok, pure, ◌>>=◌}
use roam_content_engine.Db.Order.{OnSome, OnSome-find_first}
use roam_content_engine.Db.Ensures.{
  Ensures, Ensures-pure, Ensures-throw, Ensures-catching, Ensures-translating, Ensures-bind,
  Ensures-bind_where, Ensures-return, Ensures-query, Ensures-then,
}
use roam_content_engine.Db.Moves.{Quiet, Quiet-pure, Quiet-throw}
use roam_content_engine.Publish.Types.{PublishJob, Tables}
use roam_content_engine.Publish.Statements.{names_job}
use roam_content_engine.Publish.Repository.Leases.{get_by_id}
use roam_content_engine.Publish.Source.{ClaimedPublishJob}
use roam_content_engine.Publish.Classifier.{
  PublishFailurePhase, submission, poll, classify_publish_orchestration_failure,
}
use roam_content_engine.Publish.Engine.{PublishEngineJob, PublishEngineJobState}
use roam_content_engine.Publish.Heartbeat.{Dependencies, caller}
use roam_content_engine.Publish.Executor.{
  Outcome, outcome_of, handle_failure, recover_from, submit_remote_job, poll_remote_job, polled,
  still_running, persisted_or_lost, advance, execute_current, execute, is_held_by,
}
use roam_content_engine.Publish.Repository.Recovery.{is_truthy}
use roam_content_engine.Publish.Executor.Settled.{
  Has, is_left_as, Left, record_submission-Left, record_remote_waiting-Left, record_retry-Left,
  complete-Left, fail-Left, mark_remote_cancelled-Left,
}

-- The lease was lost, or the table has the job as the outcome says.
abbrev pub Reported : String → String → Outcome → Tables → Type 0
Reported tenant_id job_id o t = (o ≡ Outcome.lease_lost) ⊎ Has (is_left_as o tenant_id job_id) t

module _ (deps : Dependencies) (job : PublishJob) where
  abbrev Reports : Db Tables Outcome → Type 0
  Reports m = Ensures (Reported job.tenant_id job.id) m

  reported :
      (o : Outcome) (at : ℕ) (r : Option PublishJob) (t : Tables)
      → Left (caller job at) o r t
      → Reported job.tenant_id job.id (outcome_of o r) t
  reported o at none t h = inl refl
  reported o at (some r) t h = inr (h refl)

  settled :
      (o : Outcome) (at : ℕ) (m : Db Tables (Option PublishJob))
      → Ensures (Left (caller job at) o) m
      → Reports (m >>= λ r. pure (outcome_of o r))
  settled o at m k =
      Ensures-return (Reported job.tenant_id job.id) (Left (caller job at) o) (outcome_of o)
        (reported o at) m k

  handle_failure-Reports :
      (phase : PublishFailurePhase) (error : Thrown) → Reports (handle_failure deps job phase error)
  unfolding handle_failure
  handle_failure-Reports phase error = Ensures-bind _ _ _ (λ at.
      elim (Bool-cases (classify_publish_orchestration_failure error phase false).retryable) [
        | inr e ↦ rw e (settled Outcome.failed at _ (fail-Left (caller job at) _ _ _ _ _))
        | inl e ↦
            elim (Bool-cases
              (leb deps.max_consecutive_failures (job.consecutive_failure_count + 1))) [
                | inl f ↦
                    rw (e, f) (settled Outcome.failed at _ (fail-Left (caller job at) _ _ _ _ _))
                | inr f ↦
                    rw (e, f)
                      (settled Outcome.retry_scheduled at _
                        (record_retry-Left (caller job at) _ _ _))
              ]
      ])

  recover_from-Reports :
      (phase : PublishFailurePhase) (error : Thrown) → Reports (recover_from deps job phase error)
  unfolding recover_from
  recover_from-Reports phase Thrown.lease_lost = Ensures-pure _ _ (λ t. inl refl)
  recover_from-Reports phase error = handle_failure-Reports phase error

  Submitted : Option PublishJob → Outcome → Type 0
  Submitted r o = (o ≡ Outcome.waiting) × (is_some r ≡ true)

  persisted_or_lost-Submitted :
      (r : Option PublishJob) → Ensures (λ o _. Submitted r o) (persisted_or_lost deps r)
  unfolding persisted_or_lost Submitted
  persisted_or_lost-Submitted none = Ensures-throw _ _
  persisted_or_lost-Submitted (some r) = Ensures-pure _ _ (λ t. (refl, refl))

  Quiet-persisted_or_lost : (r : Option PublishJob) → Quiet (persisted_or_lost deps r)
  unfolding persisted_or_lost
  Quiet-persisted_or_lost none = Quiet-throw _
  Quiet-persisted_or_lost (some r) = Quiet-pure _

  submission-Reported :
      (at : ℕ) (r : Option PublishJob) (o : Outcome) (t u : Tables)
      → Left (caller job at) Outcome.waiting r t
      → t ≡ u
      → Submitted r o
      → Reported job.tenant_id job.id o u
  unfolding Submitted
  submission-Reported at r o t u h e k = inr (rw (k.0, ← e) (h k.1))

  submit_remote_job-Reports : (aborted : Bool) → Reports (submit_remote_job deps job aborted)
  unfolding submit_remote_job
  submit_remote_job-Reports aborted = Ensures-bind _ _ _ (λ staged_at. Ensures-bind _ _ _ (λ _.
      Ensures-catching _ _ _
        (Ensures-bind _ _ _ (λ source. Ensures-bind _ _ _ (λ o. Ensures-bind _ _ _ (λ remote.
          Ensures-bind _ _ _ (λ at.
            Ensures-then _ _ ◌≡◌ Submitted _ _ (record_submission-Left (caller job at) _ _ _ _ _)
              Quiet-persisted_or_lost persisted_or_lost-Submitted (submission-Reported at))))))
        (recover_from-Reports submission)))

  polled-Reports :
      (aborted : Bool) (remote_id : String) (at : ℕ) (remote : PublishEngineJob)
      (state : PublishEngineJobState)
      → Reports (polled deps job aborted remote_id at remote state)
  unfolding polled still_running
  polled-Reports aborted remote_id at remote PublishEngineJobState.failed =
      settled Outcome.failed at _ (fail-Left (caller job at) _ _ _ _ _)
  polled-Reports aborted remote_id at remote PublishEngineJobState.cancelled =
      settled Outcome.cancelled at _ (mark_remote_cancelled-Left (caller job at) _ _ _)
  polled-Reports aborted remote_id at remote PublishEngineJobState.succeeded =
      Ensures-bind _ _ _ (λ _. Ensures-bind _ _ _ (λ download. Ensures-bind _ _ _ (λ metadata.
        Ensures-bind _ _ _ (λ done_at.
          settled Outcome.completed done_at _ (complete-Left (caller job done_at) _ _ _ _)))))
  polled-Reports aborted remote_id at remote _ =
      settled Outcome.waiting at _ (record_remote_waiting-Left (caller job at) _ _ _ _)

  poll_remote_job-Reports :
      (aborted : Bool) (remote_id : String) → Reports (poll_remote_job deps job aborted remote_id)
  unfolding poll_remote_job
  poll_remote_job-Reports aborted remote_id = Ensures-bind _ _ _ (λ staged_at.
      Ensures-bind _ _ _ (λ _.
        Ensures-catching _ _ _
          (Ensures-bind _ _ _ (λ remote.
            Ensures-bind _ _ _ (λ at. polled-Reports aborted remote_id at remote remote.state)))
          (recover_from-Reports poll)))

  advance-Reports :
      (aborted : Bool) (remote_id : Option String) → Reports (advance deps job aborted remote_id)
  unfolding advance
  advance-Reports aborted none = submit_remote_job-Reports aborted
  advance-Reports aborted (some id) = elim (Bool-cases (is_truthy (some id))) [
    | inl e ↦ rw e (poll_remote_job-Reports aborted id)
    | inr e ↦ rw e (submit_remote_job-Reports aborted)
  ]

get_by_id-Ensures :
    (tenant_id job_id : String)
    → Ensures
        (λ o _. OnSome (λ r. names_job tenant_id job_id r ≡ true) o)
        (get_by_id tenant_id job_id)
unfolding get_by_id
get_by_id-Ensures tenant_id job_id = Ensures-bind _ _ _ (λ _.
    Ensures-translating _ _ _ (
      Ensures-query _ _
        (λ t locked. OnSome-find_first (names_job tenant_id job_id) t.publish_jobs)))

execute_current-Reports :
    (deps : Dependencies) (worker_id : String) (aborted : Bool) (tenant_id job_id : String)
    (current : Option PublishJob)
    → OnSome (λ r. names_job tenant_id job_id r ≡ true) current
    → Ensures (Reported tenant_id job_id) (execute_current deps worker_id aborted current)
unfolding execute_current
execute_current-Reports deps worker_id aborted tenant_id job_id none h =
    Ensures-pure _ _ (λ t. inl refl)
execute_current-Reports deps worker_id aborted tenant_id job_id (some job) h =
    elim (Bool-cases (is_held_by deps worker_id job)) [
      | inl e ↦
          rw
            (
              e,
              ← (eq_iff job.tenant_id tenant_id).0
                  (&&-true (str_eq job.tenant_id tenant_id) (str_eq job.id job_id) h).0,
              ← (eq_iff job.id job_id).0
                  (&&-true (str_eq job.tenant_id tenant_id) (str_eq job.id job_id) h).1,
            )
            (advance-Reports deps job aborted job.remote_job_id)
      | inr e ↦ rw e (Ensures-pure _ _ (λ t. inl refl))
    ]

-- What `execute` reports, if it returns, is what the table holds: the claimed job has the reported
-- status and no lease any more, unless the lease was lost.
pub execute_truthful :
    (deps : Dependencies) (claim : ClaimedPublishJob) (aborted : Bool) (s : Session Tables)
    (o : Outcome)
    → (execute deps claim aborted s).0 ≡ ok o
    → (o ≡ Outcome.lease_lost)
      ⊎ Has
          (is_left_as o claim.tenant_id claim.publish_job_id)
          (execute deps claim aborted s).1.tables
unfolding execute
execute_truthful deps claim aborted =
    (Ensures-bind_where (Reported claim.tenant_id claim.publish_job_id) _ _ _
      (get_by_id-Ensures _ _)
      (execute_current-Reports deps claim.worker_id aborted claim.tenant_id
        claim.publish_job_id)).at
