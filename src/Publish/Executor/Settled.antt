-- ===== src/Publish/Executor/Settled.antt =====
-- What the table holds when a method that gives a job up has returned a row.
use roam_content_engine.Prelude.{
  ℕ, String, Bool, true, false, Option, none, some, ◌≡◌, refl, ◌&&◌, &&-true, is_none,
}
use roam_content_engine.Db.{Db, ◌>>=◌}
use roam_content_engine.Db.Moves.{Moves}
use roam_content_engine.Db.Ensures.{
  Ensures, Ensures-pure, Ensures-translating, Ensures-bind, Ensures-then,
}
use roam_content_engine.Publish.Types.{PublishJob, PublishJobStatus, Tables, same_status}
use roam_content_engine.Db.Found
use roam_content_engine.Publish.Statements.{
  publish_table, Caller, update_jobs, logged, holds_lease, names_job,
}
use roam_content_engine.Publish.Steps.Rows.{
  SameJobs, SameJobs-logged, SameJobs-insert_event, SameJobs-then,
}
use roam_content_engine.Publish.Types.{PublishDownloadMetadata}
use roam_content_engine.Publish.Executor.{Outcome}
use roam_content_engine.Publish.Repository.Settle.{
  submitted, still_waiting, to_retry, done, given_up, called_off, record_submission,
  record_remote_waiting, record_retry, complete, fail, mark_remote_cancelled,
}

-- there is a row that passes the test
abbrev pub Has : (PublishJob → Bool) → Tables → Type 0
Has = Found.Has publish_table

-- … if anything was updated
abbrev pub HasIf : (PublishJob → Bool) → Option PublishJob → Tables → Type 0
HasIf = Found.HasIf publish_table

update-Ensures :
    (p : PublishJob → Bool) (cond : PublishJob → Bool) (set : PublishJob → PublishJob)
    → ((r : PublishJob) → cond r ≡ true → p (set r) ≡ true)
    → Ensures (HasIf p) (update_jobs cond set)
unfolding update_jobs
update-Ensures = Found.update_rows-HasIf publish_table

pub logged_returns :
    (log : PublishJob → Db Tables (Unit {0})) (o : Option PublishJob)
    → Ensures (λ b _. b ≡ o) (logged log o)
unfolding logged
logged_returns log none = Ensures-pure _ none (λ t. refl)
logged_returns log (some r) = Ensures-bind _ _ _ (λ _. Ensures-pure _ (some r) (λ t. refl))

pub settled-Ensures :
    (p : PublishJob → Bool) (cond : PublishJob → Bool) (set : PublishJob → PublishJob)
    (log : PublishJob → Db Tables (Unit {0}))
    → ((r : PublishJob) → cond r ≡ true → p (set r) ≡ true)
    → ((r : PublishJob) → Moves SameJobs (log r))
    → Ensures (HasIf p) (update_jobs cond set >>= logged log)
settled-Ensures p cond set log h quiet =
    Ensures-then (HasIf p) (HasIf p) SameJobs (λ a b. b ≡ a) _ _ (update-Ensures p cond set h)
      (SameJobs-logged log quiet) (logged_returns log)
      (λ a b t u k e v some_b. rw (← e) (k (rw v at some_b)))

-- the status that goes with an outcome
unfoldable pub stored_status : Outcome → PublishJobStatus
stored_status Outcome.completed = PublishJobStatus.completed
stored_status Outcome.waiting = PublishJobStatus.waiting
stored_status Outcome.retry_scheduled = PublishJobStatus.retrying
stored_status Outcome.failed = PublishJobStatus.failed
stored_status Outcome.cancelled = PublishJobStatus.cancelled
stored_status Outcome.lease_lost = PublishJobStatus.processing

-- the job's row has that status, and no lease
abbrev pub is_left_as : Outcome → String → String → PublishJob → Bool
is_left_as o tenant_id job_id r =
    names_job tenant_id job_id r
    && same_status r.status (stored_status o)
    && is_none r.lease_owner
    && is_none r.lease_expires_at

module _ (c : Caller) where
  abbrev pub Left : Outcome → Option PublishJob → Tables → Type 0
  Left o = HasIf (is_left_as o c.tenant_id c.publish_job_id)

  named :
      (w : String) (r : PublishJob)
      → holds_lease c w r ≡ true
      → names_job c.tenant_id c.publish_job_id r ≡ true
  named w r h = (&&-true _ _ (&&-true _ _ (&&-true _ _ h).0).0).0

  settled-Left :
      (o : Outcome) (w : String) (set : PublishJob → PublishJob)
      (log : PublishJob → Db Tables (Unit {0}))
      → ((r : PublishJob)
          → names_job c.tenant_id c.publish_job_id r ≡ true
          → is_left_as o c.tenant_id c.publish_job_id (set r) ≡ true)
      → ((r : PublishJob) → Moves SameJobs (log r))
      → Ensures (Left o) (update_jobs (holds_lease c w) set >>= logged log)
  settled-Left o w set log h quiet =
      settled-Ensures (is_left_as o c.tenant_id c.publish_job_id) _ set log
        (λ r l. h r (named w r l)) quiet

  pub record_submission-Left :
      (job_id state : String) (correlation : Option String) (at poll_at : ℕ)
      → Ensures (Left Outcome.waiting) (record_submission c job_id state correlation at poll_at)
  unfolding record_submission stored_status same_status
  record_submission-Left job_id state correlation at poll_at = Ensures-bind _ _ _ (λ w.
      Ensures-translating _ _ _ (
        Ensures-bind _ _ _ (λ id. Ensures-bind _ _ _ (λ st.
          settled-Left Outcome.waiting w (submitted id st correlation at poll_at c.now) _
            (λ r h. rw h refl)
            (λ r.
              SameJobs-then _ _ (SameJobs-insert_event _ _ _ _ _ _)
                (λ _. SameJobs-insert_event _ _ _ _ _ _))))))

  pub record_remote_waiting-Left :
      (state : String) (correlation : Option String) (polled_at poll_at : ℕ)
      → Ensures (Left Outcome.waiting) (record_remote_waiting c state correlation polled_at poll_at)
  unfolding record_remote_waiting stored_status same_status
  record_remote_waiting-Left state correlation polled_at poll_at = Ensures-bind _ _ _ (λ w.
      Ensures-translating _ _ _ (
        Ensures-bind _ _ _ (λ st.
          settled-Left Outcome.waiting w (still_waiting st correlation polled_at poll_at c.now) _
            (λ r h. rw h refl) (λ r. SameJobs-insert_event _ _ _ _ _ _))))

  pub record_retry-Left :
      (code message : String) (attempt_at : ℕ)
      → Ensures (Left Outcome.retry_scheduled) (record_retry c code message attempt_at)
  unfolding record_retry stored_status same_status
  record_retry-Left code message attempt_at = Ensures-bind _ _ _ (λ w. Ensures-translating _ _ _ (
      Ensures-bind _ _ _ (λ cd. Ensures-bind _ _ _ (λ ms.
        settled-Left Outcome.retry_scheduled w (to_retry cd ms attempt_at c.now) _
          (λ r h. rw h refl) (λ r. SameJobs-insert_event _ _ _ _ _ _)))))

  pub complete-Left :
      (state : String) (correlation : Option String) (polled_at : ℕ)
      (download : PublishDownloadMetadata)
      → Ensures (Left Outcome.completed) (complete c state correlation (some polled_at) download)
  unfolding complete stored_status same_status
  complete-Left state correlation polled_at download = Ensures-bind _ _ _ (λ w.
      Ensures-translating _ _ _ (
        Ensures-bind _ _ _ (λ st.
          settled-Left Outcome.completed w (done st correlation (some polled_at) download c.now) _
            (λ r h. rw h refl) (λ r. SameJobs-insert_event _ _ _ _ _ _))))

  ended_named :
      (o : Outcome) (polled_at : Option ℕ) (set : Option ℕ → PublishJob → PublishJob)
      → ((r : PublishJob)
          → is_left_as o c.tenant_id c.publish_job_id (set none r)
            ≡ names_job c.tenant_id c.publish_job_id r)
      → ((at : ℕ) (r : PublishJob)
          → is_left_as o c.tenant_id c.publish_job_id (set (some at) r)
            ≡ names_job c.tenant_id c.publish_job_id r)
      → (r : PublishJob) → names_job c.tenant_id c.publish_job_id r ≡ true
      → is_left_as o c.tenant_id c.publish_job_id (set polled_at r) ≡ true
  ended_named o none set f g r h = rw (f r) h
  ended_named o (some at) set f g r h = rw (g at r) h

  and_true : (b : Bool) → (b && true && true && true) ≡ b
  and_true true = refl
  and_true false = refl

  pub fail-Left :
      (code message : String) (state correlation : Option String) (polled_at : Option ℕ)
      → Ensures (Left Outcome.failed) (fail c code message state correlation polled_at)
  unfolding fail stored_status same_status
  fail-Left code message state correlation polled_at = Ensures-bind _ _ _ (λ w.
      Ensures-translating _ _ _ (
        Ensures-bind _ _ _ (λ cd. Ensures-bind _ _ _ (λ ms.
          settled-Left Outcome.failed w (given_up cd ms state correlation polled_at c.now) _
            (ended_named Outcome.failed polled_at (λ p. given_up cd ms state correlation p c.now)
              (λ r. and_true _) (λ at r. and_true _))
            (λ r. SameJobs-insert_event _ _ _ _ _ _)))))

  pub mark_remote_cancelled-Left :
      (state : String) (correlation : Option String) (polled_at : ℕ)
      → Ensures
          (Left Outcome.cancelled)
          (mark_remote_cancelled c state correlation (some polled_at))
  unfolding mark_remote_cancelled stored_status same_status
  mark_remote_cancelled-Left state correlation polled_at = Ensures-bind _ _ _ (λ w.
      Ensures-translating _ _ _ (
        Ensures-bind _ _ _ (λ st.
          settled-Left Outcome.cancelled w (called_off st correlation (some polled_at) c.now) _
            (λ r h. rw h refl) (λ r. SameJobs-insert_event _ _ _ _ _ _))))
