-- ===== src/Publish/Source/Claim.antt =====
-- What a worker holds once it is given a job.
use roam_content_engine.Prelude.{ℕ, ◌+◌, String, Bool, Option, none, some, ◌≡◌, refl, Memᴰ}
use roam_content_engine.Db.{Session, ok, Db, ◌>>=◌}
use roam_content_engine.Db.Found.{returned}
use roam_content_engine.Db.Moves.{Moves}
use roam_content_engine.Db.Order.{OnSome}
use roam_content_engine.Db.Ensures.{
  Ensures, Ensures-pure, Ensures-bind, Ensures-then, Ensures-return, Ensures-translating,
  Ensures-transaction, Ensures-statement,
}
use roam_content_engine.Publish.Types.{PublishJob, PublishJobStatus, Tables}
use roam_content_engine.Publish.Statements.{update_jobs, logged}
use roam_content_engine.Publish.Steps.Rows.{SameJobs, SameJobs-logged, SameJobs-insert_event}
use roam_content_engine.Publish.Repository.Leases.{claimed, claim_candidate}
use roam_content_engine.Publish.Source.{ClaimedPublishJob, acquire_next, claim_found, claim_of}
use roam_content_engine.Publish.Executor.Settled.{logged_returns}

-- The row is in the table, and is as P says.
abbrev pub Stored : (PublishJob → Type 0) → Option PublishJob → Tables → Type 0
Stored P o t = OnSome (λ u. Memᴰ u t.publish_jobs × P u) o

module _ (P : PublishJob → Type 0) (cond : PublishJob → Bool) (set : PublishJob → PublishJob)
    (h : (r : PublishJob) → P (set r)) where
  update_logged-Stored :
      (log : PublishJob → Db Tables (Unit {0}))
      → ((r : PublishJob) → Moves SameJobs (log r))
      → Ensures (Stored P) (update_jobs cond set >>= logged log)
  unfolding update_jobs
  update_logged-Stored log quiet =
      Ensures-then (Stored P) (Stored P) SameJobs (λ a b. b ≡ a) _ _
        (Ensures-statement (Stored P) _ (λ t. returned P cond set h t.publish_jobs))
        (SameJobs-logged log quiet) (logged_returns log) (λ a b t u k e v. rw (v, ← e) k)

-- being processed by the worker, under a lease until that time
abbrev pub IsLeased : String → ℕ → PublishJob → Type 0
IsLeased w until r =
    (r.status ≡ PublishJobStatus.processing)
    × (r.lease_owner ≡ some w)
    × (r.lease_expires_at ≡ some until)

claim_found-Stored :
    (w : String) (d now : ℕ) (k : Option PublishJob)
    → Ensures (Stored (IsLeased w (now + d))) (claim_found w d now k)
unfolding claim_found claim_candidate
claim_found-Stored w d now none = Ensures-pure _ none (λ t. tt)
claim_found-Stored w d now (some k) =
    update_logged-Stored (IsLeased w (now + d)) _ (claimed w d now) (λ r. (refl, refl, refl)) _
      (λ r. SameJobs-insert_event _ _ _ _ _ _)

-- The claim names a row of the table that is leased to the worker.
abbrev pub IsClaim : String → ℕ → ClaimedPublishJob → Tables → Type 0
IsClaim w until c t =
    (c.worker_id ≡ w)
    × (c.lease_expires_at ≡ until)
    × ((r : PublishJob) × Memᴰ r t.publish_jobs
        × (r.tenant_id ≡ c.tenant_id)
        × (r.id ≡ c.publish_job_id)
        × IsLeased w until r)

claim_of-IsClaim :
    (w : String) (until : ℕ) (o : Option PublishJob) (t : Tables)
    → Stored (IsLeased w until) o t
    → OnSome (λ c. IsClaim w until c t) (claim_of w o)
unfolding claim_of
claim_of-IsClaim w until none t h = tt
claim_of-IsClaim w until (some r) t h = rw (h.1.2) (refl, refl, (r, h.0, refl, refl, h.1))

-- A claim that `acquireNext` returns names a job of the table that is now being processed by the
-- worker, under a lease that ends the lease's duration from now.
pub acquire_next-IsClaim :
    (w : String) (d now : ℕ) (s : Session Tables) (claim : ClaimedPublishJob)
    → (acquire_next w d now s).0 ≡ ok (some claim)
    → IsClaim w (now + d) claim (acquire_next w d now s).1.tables
unfolding acquire_next
acquire_next-IsClaim w d now s claim =
    (Ensures-translating _ _ _ (
        Ensures-transaction (λ o t. OnSome (λ c. IsClaim w (now + d) c t) o) _
          (Ensures-bind _ _ _ (λ k.
            Ensures-return _ (Stored (IsLeased w (now + d))) (claim_of w)
              (claim_of-IsClaim w (now + d)) _ (claim_found-Stored w d now k))))).at
      s (some claim)
