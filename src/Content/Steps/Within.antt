-- ===== src/Content/Steps/Within.antt =====
-- Rules for the shapes that the methods share, for any relation on rows that holds of an unchanged
-- row.
use roam_content_engine.Prelude.{
  ℕ, String, Bool, true, Option, none, some, ◌≡◌, refl, inl, inr, trim, Option-cases,
}
use roam_content_engine.Json.{Json}
use roam_content_engine.Db.{Db, ◌>>=◌, translating, transaction, ensure_non_empty}
use roam_content_engine.Db.Moves.{
  Moves, Quiet, Quiet-pure, Quiet-throw, Quiet-draw, Quiet-bind, Moves-Quiet, Moves-ensure,
  Moves-translating, Moves-transaction, Moves-after, Moves-statement,
}
use roam_content_engine.Db.Rows.{
  Rows, SameRows, SameRows-then, SameRows-pure, Pairwise-refl, Moves-update_then,
}
use roam_content_engine.Content.Types.{ContentJobRow, ContentJobStatus, JobEventType, Tables}
use roam_content_engine.Content.Results.{Externals}
use roam_content_engine.Content.Statements.{
  content_table, update_jobs, insert_event, map_content_job, map_optional, logged, stored_result,
}

-- Only the log may differ.
abbrev pub SameJobs : Tables → Tables → Type 0
SameJobs = SameRows content_table

pub SameJobs-insert_event :
    (tenant_id job_id : String) (type : JobEventType) (prior new : Option ContentJobStatus)
    (details : Option Json) (at : ℕ)
    → Moves SameJobs (insert_event tenant_id job_id type prior new details at)
unfolding insert_event
SameJobs-insert_event tenant_id job_id type prior new details at =
    Moves-after SameJobs (λ t. refl) _ _ Quiet-draw
      (λ id. Moves-statement SameJobs (λ t. refl) _ (λ t. refl))

pub SameJobs-Quiet {ℓ} : {A : Type ℓ} (m : Db Tables A) → Quiet m → Moves SameJobs m
SameJobs-Quiet = Moves-Quiet SameJobs (λ t. refl)

-- an event, and something behind it that leaves the tables alone
pub SameJobs-event_then {ℓ} :
    {A : Type ℓ} (tenant_id job_id : String) (type : JobEventType)
    (prior new : Option ContentJobStatus) (details : Option Json) (at : ℕ)
    (f : Unit {0} → Db Tables A)
    → Quiet (f tt)
    → Moves SameJobs (insert_event tenant_id job_id type prior new details at >>= f)
SameJobs-event_then tenant_id job_id type prior new details at f q =
    SameRows-then content_table _ _
      (SameJobs-insert_event tenant_id job_id type prior new details at) (λ u. SameJobs-Quiet _ q)

module _ (x : Externals) where
  pub Quiet-map_content_job : (row : ContentJobRow) → Quiet (map_content_job x row)
  unfolding map_content_job
  Quiet-map_content_job row = elim (Option-cases (stored_result x row.result)) [
    | inl e ↦ rw e (Quiet-throw _)
    | inr e ↦ rw (e.1) (Quiet-pure _)
  ]

  pub Quiet-map_optional : (o : Option ContentJobRow) → Quiet (map_optional x o)
  unfolding map_optional
  Quiet-map_optional none = Quiet-pure none
  Quiet-map_optional (some row) =
      Quiet-bind _ _ (Quiet-map_content_job row) (λ job. Quiet-pure (some job))

  pub SameJobs-logged :
      (log : ContentJobRow → Db Tables (Unit {0}))
      → ((r : ContentJobRow) → Moves SameJobs (log r))
      → (o : Option ContentJobRow) → Moves SameJobs (logged x log o)
  unfolding logged
  SameJobs-logged log quiet none = SameRows-pure content_table none
  SameJobs-logged log quiet (some r) = SameRows-then content_table _ _ (quiet r) (λ _.
      SameJobs-Quiet _ (Quiet-bind _ _ (Quiet-map_content_job r) (λ job. Quiet-pure (some job))))

-- Every row is as it was, or one step further.
abbrev pub Within : (ContentJobRow → ContentJobRow → Type 0) → Tables → Tables → Type 0
Within ρ = Rows content_table ρ

module _ (ρ : ContentJobRow → ContentJobRow → Type 0) (same : (r : ContentJobRow) → ρ r r) where
  pub Within-refl : (t : Tables) → Within ρ t t
  Within-refl t = Pairwise-refl ρ same t.content_jobs

  pub Within-Quiet {ℓ} : {A : Type ℓ} (m : Db Tables A) → Quiet m → Moves (Within ρ) m
  Within-Quiet = Moves-Quiet (Within ρ) Within-refl

  pub Within-ensure {ℓ} :
      {A : Type ℓ} (value field : String) (f : String → Db Tables A)
      → Moves (Within ρ) (f (trim value))
      → Moves (Within ρ) (ensure_non_empty value field >>= f)
  Within-ensure = Moves-ensure (Within ρ) Within-refl

  pub Within-translating {ℓ} :
      {A : Type ℓ} (message : String) (m : Db Tables A)
      → Moves (Within ρ) m
      → Moves (Within ρ) (translating message m)
  Within-translating = Moves-translating (Within ρ) Within-refl

  pub Within-transaction {ℓ} :
      {A : Type ℓ} (m : Db Tables A) → Moves (Within ρ) m → Moves (Within ρ) (transaction m)
  Within-transaction = Moves-transaction (Within ρ) Within-refl

  pub Within-after {ℓ κ} :
      {A : Type ℓ} {B : Type κ} (m : Db Tables A) (f : A → Db Tables B)
      → Quiet m
      → ((a : A) → Moves (Within ρ) (f a))
      → Moves (Within ρ) (m >>= f)
  Within-after = Moves-after (Within ρ) Within-refl

  -- an UPDATE, and something behind it that can only log
  pub Within-update {ℓ} :
      {A : Type ℓ} (cond : ContentJobRow → Bool) (set : ContentJobRow → ContentJobRow)
      (f : Option ContentJobRow → Db Tables A)
      → ((r : ContentJobRow) → cond r ≡ true → ρ r (set r))
      → ((o : Option ContentJobRow) → Moves SameJobs (f o))
      → Moves (Within ρ) (update_jobs cond set >>= f)
  unfolding update_jobs
  Within-update = Moves-update_then content_table ρ same
