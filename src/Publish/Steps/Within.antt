-- ===== src/Publish/Steps/Within.antt =====
-- Tables that are one step apart, row by row, and the rules for the shapes that the methods share.
use roam_content_engine.Prelude.{ℕ, String, Bool, true, Option, ◌≡◌, &&-true, trim, arith}
use roam_content_engine.Db.{Db, ◌>>=◌, translating, transaction, ensure_non_empty}
use roam_content_engine.Db.Moves.{
  Moves, Quiet, Moves-Quiet, Moves-ensure, Moves-translating, Moves-transaction, Moves-after,
}
use roam_content_engine.Publish.Types.{PublishJob, Tables}
use roam_content_engine.Publish.Statements.{
  Caller, names_job, holds_lease, is_owner, logged, update_jobs,
}
use roam_content_engine.Publish.Steps.{RowStep, is_leased_by, is_worked_by, stays}
use roam_content_engine.Publish.Steps.Rows.{
  Rows, SameJobs, Pairwise-refl, Moves-update_jobs, Moves-update_then, Moves-update_logged,
}

abbrev pub Within : ℕ → String → Tables → Tables → Type 0
Within now who = Rows (RowStep now who)

pub Within-refl : (now : ℕ) (who : String) (t : Tables) → Within now who t t
Within-refl now who t = Pairwise-refl (RowStep now who) (λ r. stays) t.publish_jobs

-- The condition of an UPDATE names the job, its worker and its lease; a step asks the last two.
leased :
    (c : Caller) (w : String) (r : PublishJob)
    → holds_lease c w r ≡ true
    → is_leased_by c.now w r ≡ true
leased c w r h =
    ground (arith, &&-true (names_job c.tenant_id c.publish_job_id r) (is_worked_by w r))

pub owned :
    (c : Caller) (w : String) (r : PublishJob) → is_owner c w r ≡ true → is_worked_by w r ≡ true
owned c w r h = ground arith

module _ (now : ℕ) (who : String) where
  pub Within-Quiet {ℓ} : {A : Type ℓ} (m : Db Tables A) → Quiet m → Moves (Within now who) m
  Within-Quiet = Moves-Quiet (Within now who) (Within-refl now who)

  pub Within-ensure {ℓ} :
      {A : Type ℓ} (value field : String) (f : String → Db Tables A)
      → Moves (Within now who) (f (trim value))
      → Moves (Within now who) (ensure_non_empty value field >>= f)
  Within-ensure = Moves-ensure (Within now who) (Within-refl now who)

  pub Within-translating {ℓ} :
      {A : Type ℓ} (message : String) (m : Db Tables A)
      → Moves (Within now who) m
      → Moves (Within now who) (translating message m)
  Within-translating = Moves-translating (Within now who) (Within-refl now who)

  pub Within-transaction {ℓ} :
      {A : Type ℓ} (m : Db Tables A)
      → Moves (Within now who) m
      → Moves (Within now who) (transaction m)
  Within-transaction = Moves-transaction (Within now who) (Within-refl now who)

  pub Within-after {ℓ κ} :
      {A : Type ℓ} {B : Type κ} (m : Db Tables A) (f : A → Db Tables B)
      → Quiet m
      → ((a : A) → Moves (Within now who) (f a))
      → Moves (Within now who) (m >>= f)
  Within-after = Moves-after (Within now who) (Within-refl now who)

  pub Within-update :
      (cond : PublishJob → Bool) (set : PublishJob → PublishJob)
      → ((r : PublishJob) → cond r ≡ true → RowStep now who r (set r))
      → Moves (Within now who) (update_jobs cond set)
  Within-update = Moves-update_jobs (RowStep now who) (λ r. stays)

  pub Within-update_then {ℓ} :
      {A : Type ℓ} (cond : PublishJob → Bool) (set : PublishJob → PublishJob)
      (f : Option PublishJob → Db Tables A)
      → ((r : PublishJob) → cond r ≡ true → RowStep now who r (set r))
      → ((o : Option PublishJob) → Moves SameJobs (f o))
      → Moves (Within now who) (update_jobs cond set >>= f)
  Within-update_then cond set = Moves-update_then (RowStep now who) (λ r. stays) cond set

  pub Within-update_logged :
      (cond : PublishJob → Bool) (set : PublishJob → PublishJob)
      (log : PublishJob → Db Tables (Unit {0}))
      → ((r : PublishJob) → cond r ≡ true → RowStep now who r (set r))
      → ((r : PublishJob) → Moves SameJobs (log r))
      → Moves (Within now who) (update_jobs cond set >>= logged log)
  Within-update_logged = Moves-update_logged (RowStep now who) (λ r. stays)

-- What the six methods that give a job up do once their arguments are checked.
pub Within-lease :
    (c : Caller) (w : String) (set : PublishJob → PublishJob)
    (log : PublishJob → Db Tables (Unit {0}))
    → ((r : PublishJob) → is_leased_by c.now w r ≡ true → RowStep c.now w r (set r))
    → ((r : PublishJob) → Moves SameJobs (log r))
    → Moves (Within c.now w) (update_jobs (holds_lease c w) set >>= logged log)
Within-lease c w set log step =
    Within-update_logged c.now w _ set log (λ r h. step r (leased c w r h))
