-- ===== src/Publish/Steps/Rows.antt =====
-- From one row of publish_jobs to the table.
use roam_content_engine.Prelude.{Bool, true, Option, none, some, List, ◌≡◌, refl, ℕ, String}
use roam_content_engine.Db.{Db, ◌>>=◌, pure}
use roam_content_engine.Db.Moves.{Moves, Quiet-draw, Moves-statement, Moves-after}
use roam_content_engine.Db.Rows as Generic
use roam_content_engine.Publish.Types.{
  PublishJob, PublishJobStatus, PublishJobEventType, Detail, Tables,
}
use roam_content_engine.Publish.Statements.{publish_table, update_jobs, insert_event, logged}
pub use roam_content_engine.Db.Rows.{Pairwise-map, Pairwise-refl, Pairwise-trans}

abbrev pub Rows {κ} : (PublishJob → PublishJob → Type κ) → Tables → Tables → Type κ
Rows = Generic.Rows publish_table

-- Only the log may differ.
abbrev pub SameJobs : Tables → Tables → Type 0
SameJobs = Generic.SameRows publish_table

pub SameJobs-then {ℓ κ} :
    {A : Type ℓ} {B : Type κ} (m : Db Tables A) (f : A → Db Tables B)
    → Moves SameJobs m
    → ((a : A) → Moves SameJobs (f a))
    → Moves SameJobs (m >>= f)
SameJobs-then = Generic.SameRows-then publish_table

pub SameJobs-pure {ℓ} : {A : Type ℓ} (a : A) → Moves SameJobs (pure a)
SameJobs-pure = Generic.SameRows-pure publish_table

pub SameJobs-insert_event :
    (job : PublishJob) (type : PublishJobEventType) (prior new : Option PublishJobStatus)
    (details : Option (List (String × Detail))) (at : ℕ)
    → Moves SameJobs (insert_event job type prior new details at)
unfolding insert_event
SameJobs-insert_event job type prior new details at =
    Moves-after SameJobs (λ t. refl) _ _ Quiet-draw
      (λ id. Moves-statement SameJobs (λ t. refl) _ (λ t. refl))

pub SameJobs-logged :
    (log : PublishJob → Db Tables (Unit {0}))
    → ((r : PublishJob) → Moves SameJobs (log r))
    → (updated : Option PublishJob) → Moves SameJobs (logged log updated)
unfolding logged
SameJobs-logged log quiet none = SameJobs-pure none
SameJobs-logged log quiet (some r) = SameJobs-then _ _ (quiet r) (λ _. SameJobs-pure (some r))

module _ {κ} (ρ : PublishJob → PublishJob → Type κ) (same : (r : PublishJob) → ρ r r)
    (cond : PublishJob → Bool) (set : PublishJob → PublishJob) where
  pub Moves-update_jobs :
      ((r : PublishJob) → cond r ≡ true → ρ r (set r)) → Moves (Rows ρ) (update_jobs cond set)
  unfolding update_jobs
  Moves-update_jobs = Generic.Moves-update_rows publish_table ρ same cond set

  -- An UPDATE, and something behind it that can only log.
  pub Moves-update_then {ℓ} :
      {A : Type ℓ} (f : Option PublishJob → Db Tables A)
      → ((r : PublishJob) → cond r ≡ true → ρ r (set r))
      → ((o : Option PublishJob) → Moves SameJobs (f o))
      → Moves (Rows ρ) (update_jobs cond set >>= f)
  unfolding update_jobs
  Moves-update_then = Generic.Moves-update_then publish_table ρ same cond set

  -- An UPDATE and the events that are logged for it.
  pub Moves-update_logged :
      (log : PublishJob → Db Tables (Unit {0}))
      → ((r : PublishJob) → cond r ≡ true → ρ r (set r))
      → ((r : PublishJob) → Moves SameJobs (log r))
      → Moves (Rows ρ) (update_jobs cond set >>= logged log)
  Moves-update_logged log step quiet = Moves-update_then _ step (SameJobs-logged log quiet)
