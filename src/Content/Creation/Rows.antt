-- ===== src/Content/Creation/Rows.antt =====
-- What a creation does to the table of jobs.
use roam_content_engine.Prelude.{
  ℕ, String, Option, none, some, ◌≡◌, refl, subst, ◌∙◌, inl, inr, Bool-cases, str_eq,
}
use roam_content_engine.Errors.{Thrown, is_unique_violation}
use roam_content_engine.Db.{Db}
use roam_content_engine.Db.Moves.{
  Moves, Quiet, Quiet-pure, Quiet-throw, Quiet-bind, Quiet-query, Quiet-draw, Moves-Quiet,
  Moves-bind, Moves-after, Moves-statement, Moves-transaction, Moves-catching, Moves-ensure,
  Moves-translating,
}
use roam_content_engine.Db.Extends.{Extends, Extends-refl, Extends-trans, Extends-append}
use roam_content_engine.Content.Types.{
  ContentJobRow, ContentJob, CreateContentJobInput, SourceVersion, Tables,
}
use roam_content_engine.Content.Results.{Externals}
use roam_content_engine.Content.Creation.{
  new_row, insert_job, correlation_or_new, get_by_idempotency_key, create_new, create_or_take,
  with_version, take_existing, recover_create, create_with_key, create_or_get_idempotent,
}
use roam_content_engine.Content.Steps.Within.{
  SameJobs, SameJobs-event_then, Quiet-map_content_job, Quiet-map_optional,
}
use roam_content_engine.Content.Steps.Refinement.Repository.{Quiet-now, Quiet-require}

-- a row that was inserted for a request, and not changed since
pub data IsFresh : ContentJobRow → Type 0 where
  fresh :
      (input : CreateContentJobInput) (key fingerprint id correlation_id : String) (at : ℕ)
      → IsFresh (new_row input key fingerprint id correlation_id at)

-- The old rows are as they were, and all others are fresh.
abbrev pub Grows : Tables → Tables → Type 0
Grows t t' = Extends ◌≡◌ IsFresh t.content_jobs t'.content_jobs

Grows-refl : (t : Tables) → Grows t t
Grows-refl t = Extends-refl ◌≡◌ IsFresh (λ r. refl) t.content_jobs

Grows-trans : (t u v : Tables) → Grows t u → Grows u v → Grows t v
Grows-trans t u v = Extends-trans ◌≡◌ IsFresh (λ x y e n. subst IsFresh e n) (λ x y z p q. p ∙ q)

Grows-Quiet {ℓ} : {A : Type ℓ} (m : Db Tables A) → Quiet m → Moves Grows m
Grows-Quiet = Moves-Quiet Grows Grows-refl

insert_job-Grows :
    (input : CreateContentJobInput) (key fingerprint id correlation_id : String) (at : ℕ)
    → Moves Grows (insert_job (new_row input key fingerprint id correlation_id at))
unfolding insert_job
insert_job-Grows input key fingerprint id correlation_id at =
    Moves-statement Grows Grows-refl _ (λ t.
      Extends-append ◌≡◌ IsFresh (λ r. refl) _ (fresh input key fingerprint id correlation_id at)
        t.content_jobs)

SameJobs-Grows : (t u v : Tables) → Grows t u → SameJobs u v → Grows t v
SameJobs-Grows t u v g e = subst (λ rows. Extends ◌≡◌ IsFresh t.content_jobs rows) e g

Quiet-correlation_or_new : (o : Option String) → Quiet (correlation_or_new o)
unfolding correlation_or_new
Quiet-correlation_or_new none = Quiet-bind _ _ Quiet-draw (λ id. Quiet-pure _)
Quiet-correlation_or_new (some id) = Quiet-pure id

module _ (x : Externals) where
  Quiet-get_by_idempotency_key :
      (tenant_id key : String) → Quiet (get_by_idempotency_key x tenant_id key)
  unfolding get_by_idempotency_key
  Quiet-get_by_idempotency_key tenant_id key = Quiet-bind _ _ (Quiet-require _ _) (λ _.
      Moves-ensure ◌≡◌ (λ t. refl) _ _ _
        (Moves-translating ◌≡◌ (λ t. refl) _ _
          (Quiet-bind _ _ (Quiet-query _) (Quiet-map_optional x))))

  module _ (input : CreateContentJobInput) (key fingerprint : String) where
    create_new-Grows : Moves Grows (create_new x input key fingerprint)
    unfolding create_new
    create_new-Grows = Moves-after Grows Grows-refl _ _ Quiet-now (λ at.
        Moves-after Grows Grows-refl _ _ Quiet-draw (λ id.
          Moves-after Grows Grows-refl _ _ (Quiet-correlation_or_new _) (λ correlation_id.
            Moves-bind Grows SameJobs Grows (λ t u g. g) SameJobs-Grows _ _
              (insert_job-Grows input key fingerprint _ correlation_id at)
              (λ created. SameJobs-event_then _ _ _ _ _ _ _ _ (Quiet-map_content_job x created)))))

    create_or_take-Grows :
        (o : Option ContentJobRow) → Moves Grows (create_or_take x input key fingerprint o)
    unfolding create_or_take
    create_or_take-Grows none = create_new-Grows
    create_or_take-Grows (some existing) =
        elim (Bool-cases (str_eq existing.request_fingerprint fingerprint)) [
          | inl e ↦ rw e (Grows-Quiet _ (Quiet-map_content_job x existing))
          | inr e ↦ rw e (Grows-Quiet _ (Quiet-throw _))
        ]

    with_version-Grows :
        (o : Option SourceVersion) → Moves Grows (with_version x input key fingerprint o)
    unfolding with_version
    with_version-Grows none = Grows-Quiet _ (Quiet-throw _)
    with_version-Grows (some version) =
        Moves-after Grows Grows-refl _ _ (Quiet-query _) create_or_take-Grows

    Quiet-take_existing :
        (e : Thrown) (o : Option ContentJob) → Quiet (take_existing x input key fingerprint e o)
    unfolding take_existing
    Quiet-take_existing e none = Quiet-throw _
    Quiet-take_existing e (some job) =
        elim (Bool-cases (str_eq job.request_fingerprint fingerprint)) [
          | inl h ↦ rw h (Quiet-pure job)
          | inr h ↦ rw h (Quiet-throw _)
        ]

    Quiet-recover_create : (e : Thrown) → Quiet (recover_create x input key fingerprint e)
    unfolding recover_create
    Quiet-recover_create e = elim (Bool-cases (is_unique_violation e)) [
      | inl h ↦ rw h (
          Quiet-bind _ _ (Quiet-get_by_idempotency_key input.tenant_id key) (Quiet-take_existing e))
      | inr h ↦ rw h (Quiet-throw _)
    ]

    create_with_key-Grows : Moves Grows (create_with_key x input key fingerprint)
    unfolding create_with_key
    create_with_key-Grows =
        Moves-catching Grows Grows-trans _ _
          (Moves-transaction Grows Grows-refl _
            (Moves-after Grows Grows-refl _ _ (Quiet-query _) with_version-Grows))
          (λ e. Grows-Quiet _ (Quiet-recover_create e))

  -- A creation leaves all jobs as they are, and appends at most fresh ones.
  pub create-Grows :
      (input : CreateContentJobInput) → Moves Grows (create_or_get_idempotent x input)
  unfolding create_or_get_idempotent
  create-Grows input = Moves-after Grows Grows-refl _ _ (Quiet-require _ _) (λ _.
      Moves-after Grows Grows-refl _ _ (Quiet-require _ _) (λ _.
        Moves-after Grows Grows-refl _ _ (Quiet-require _ _) (λ _.
          Moves-after Grows Grows-refl _ _ (Quiet-require _ _)
            (λ _. Moves-ensure Grows Grows-refl _ _ _ (create_with_key-Grows input _ _)))))
