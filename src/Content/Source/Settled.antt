-- ===== src/Content/Source/Settled.antt =====
-- What the table holds when a method by which a worker gives a job up has returned the job.
use roam_content_engine.Prelude.{
  ℕ, String, Bool, true, Option, none, some, ◌≡◌, refl, ◌&&◌, &&-true, is_some, is_none,
}
use roam_content_engine.Json.{Json}
use roam_content_engine.Db.{Db, ◌>>=◌, translating, transaction}
use roam_content_engine.Db.Moves.{Moves}
use roam_content_engine.Db.Ensures.{
  Ensures, Ensures-pure, Ensures-translating, Ensures-transaction, Ensures-bind, Ensures-then,
}
use roam_content_engine.Db.Found.{HasIf, update_rows-HasIf}
use roam_content_engine.Content.Types.{
  ContentJobRow, ContentJob, ContentJobStatus, Tables, same_status,
}
use roam_content_engine.Content.Results.{Externals}
use roam_content_engine.Content.Statements.{content_table, names_job, update_jobs, logged}
use roam_content_engine.Content.Source.{
  Caller, holds_lease, done, to_retry, given_up, mark_completed, schedule_retry, mark_failed,
}
use roam_content_engine.Content.Steps.Within.{SameJobs, SameJobs-logged, SameJobs-insert_event}

-- the job's row has that status, and no lease
abbrev pub is_left_as : ContentJobStatus → String → String → ContentJobRow → Bool
is_left_as status tenant_id job_id r =
    names_job tenant_id job_id r
    && same_status r.status status
    && is_none r.lease_owner
    && is_none r.lease_expires_at

module _ (x : Externals) where
  logged_returns :
      (log : ContentJobRow → Db Tables (Unit {0})) (o : Option ContentJobRow)
      → Ensures (λ b _. is_some b ≡ true → is_some o ≡ true) (logged x log o)
  unfolding logged
  logged_returns log none = Ensures-pure _ none (λ t e. e)
  logged_returns log (some r) =
      Ensures-bind _ _ _ (λ _. Ensures-bind _ _ _ (λ job. Ensures-pure _ (some job) (λ t e. refl)))

  module _ (c : Caller) where
    abbrev pub Left : ContentJobStatus → Option ContentJob → Tables → Type 0
    Left status = HasIf content_table (is_left_as status c.tenant_id c.job_id)

    named : (r : ContentJobRow) → holds_lease c r ≡ true → names_job c.tenant_id c.job_id r ≡ true
    named r h = (&&-true _ _ (&&-true _ _ (&&-true _ _ h).0).0).0

    settled-Left :
        (status : ContentJobStatus) (message : String) (set : ContentJobRow → ContentJobRow)
        (log : ContentJobRow → Db Tables (Unit {0}))
        → ((r : ContentJobRow)
            → names_job c.tenant_id c.job_id r ≡ true
            → is_left_as status c.tenant_id c.job_id (set r) ≡ true)
        → ((r : ContentJobRow) → Moves SameJobs (log r))
        → Ensures
            (Left status)
            (translating message (transaction (update_jobs (holds_lease c) set >>= logged x log)))
    unfolding update_jobs
    settled-Left status message set log h quiet = Ensures-translating _ _ _ (
        Ensures-transaction (Left status) _ (
          Ensures-then (Left status) (HasIf content_table (is_left_as status c.tenant_id c.job_id))
            SameJobs (λ a b. is_some b ≡ true → is_some a ≡ true) _ _
            (update_rows-HasIf content_table _ (holds_lease c) set (λ r l. h r (named r l)))
            (SameJobs-logged x log quiet) (logged_returns log)
            (λ a b t u k e v some_b. rw (← e) (k (v some_b)))))

    pub mark_completed-Left :
        (result : Option Json)
        → Ensures (Left ContentJobStatus.completed) (mark_completed x c result)
    unfolding mark_completed same_status
    mark_completed-Left result =
        settled-Left ContentJobStatus.completed _ (done result c.now) _ (λ r h. rw h refl)
          (λ r. SameJobs-insert_event _ _ _ _ _ _ _)

    pub schedule_retry-Left :
        (code message : String) (attempt_at : ℕ)
        → Ensures (Left ContentJobStatus.retrying) (schedule_retry x c code message attempt_at)
    unfolding schedule_retry same_status
    schedule_retry-Left code message attempt_at =
        settled-Left ContentJobStatus.retrying _ (to_retry code message attempt_at c.now) _
          (λ r h. rw h refl) (λ r. SameJobs-insert_event _ _ _ _ _ _ _)

    pub mark_failed-Left :
        (code message : String)
        → Ensures (Left ContentJobStatus.failed) (mark_failed x c code message)
    unfolding mark_failed same_status
    mark_failed-Left code message =
        settled-Left ContentJobStatus.failed _ (given_up code message c.now) _ (λ r h. rw h refl)
          (λ r. SameJobs-insert_event _ _ _ _ _ _ _)
