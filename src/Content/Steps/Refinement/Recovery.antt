-- ===== src/Content/Steps/Refinement/Recovery.antt =====
-- The recovery of stale jobs.
use roam_content_engine.Prelude.{
  ℕ, ◌+◌, String, Bool, true, refl, Option, none, some, List, [], ◌∷◌, ◌≡◌, ◌≢◌, &&-true, arith,
}
use roam_content_engine.Db.Moves.{
  Moves, Moves-bind, Moves-translating, Quiet, Quiet-pure, Quiet-query, Quiet-bind,
}
use roam_content_engine.Db.Rows.{Pairwise-trans, Pairwise-map}
use roam_content_engine.Content.Types.{ContentJobRow, WorkerLeasedJob, same_status}
use roam_content_engine.Content.Results.{Externals}
use roam_content_engine.Content.Statements.{names_job}
use roam_content_engine.Content.Source.{is_stale, recovery}
use roam_content_engine.Content.Recovery.{
  recover_found, recover_stale_job, map_all, list_stale_processing_jobs, RecoveryConfig,
  recover_all,
}
use roam_content_engine.Content.Steps.{RowStep, stays, recovers}
use roam_content_engine.Content.Steps.Within.{
  Within, Within-Quiet, Within-translating, Within-transaction, Within-after, Within-update,
  SameJobs-insert_event, SameJobs-logged,
}
use roam_content_engine.Content.Steps.Refinement.Source.{Quiet-map_worker_leased_job}

module _ (at : ℕ) where
  -- a row that is left alone, or that was stale and is recovered
  pub data Recovered (r : ContentJobRow) : ContentJobRow → Type 0 where
    untouched : Recovered r r
    taken_up :
        (exhausted : Bool) (attempt_at : ℕ)
        → is_stale at r ≡ true
        → Recovered r (recovery exhausted attempt_at at r)

  -- A recovered row is not stale, so that two rounds on one row are one.
  pub not_stale :
      (exhausted : Bool) (attempt_at : ℕ) (r : ContentJobRow)
      → is_stale at (recovery exhausted attempt_at at r) ≢ true
  unfolding same_status
  not_stale exhausted attempt_at r h = ground arith

  Recovered-trans : (x y z : ContentJobRow) → Recovered x y → Recovered y z → Recovered x z
  Recovered-trans x y z untouched q = q
  Recovered-trans x y z (taken_up e a h) untouched = taken_up e a h
  Recovered-trans x y z (taken_up e a h) (taken_up f b k) = absurd (not_stale e a x k)

  pub Recovered-RowStep : (who : String) (x y : ContentJobRow) → Recovered x y → RowStep at who x y
  Recovered-RowStep who x y untouched = stays
  Recovered-RowStep who x y (taken_up e a h) = recovers e a h

  module _ (x : Externals) where
    -- What a recovery does to the rows, for any relation that it keeps on a stale row that it names.
    module _ (ρ : ContentJobRow → ContentJobRow → Type 0) (same : (r : ContentJobRow) → ρ r r)
        (tenant_id job_id : String) (max attempt_at : ℕ)
        (step : (exhausted : Bool) (r : ContentJobRow)
          → names_job tenant_id job_id r ≡ true
          → is_stale at r ≡ true
          → ρ r (recovery exhausted attempt_at at r)) where
      recover_found-Rows :
          (o : Option ContentJobRow)
          → Moves (Within ρ) (recover_found x tenant_id job_id max attempt_at at o)
      unfolding recover_found
      recover_found-Rows none = Within-Quiet ρ same _ (Quiet-pure none)
      recover_found-Rows (some stale) =
          Within-update ρ same _ _ _
            (λ r h.
              let (named, is_old) = &&-true (names_job tenant_id job_id r) _ h in
              step _ r named is_old)
            (SameJobs-logged x _ (λ r. SameJobs-insert_event _ _ _ _ _ _ _))

      pub recover_stale_job-Rows :
          Moves (Within ρ) (recover_stale_job x tenant_id job_id max attempt_at at)
      unfolding recover_stale_job
      recover_stale_job-Rows =
          Within-translating ρ same _ _ (
            Within-transaction ρ same _
              (Within-after ρ same _ _ (Quiet-query _) recover_found-Rows))

    recover_stale_job-Recovered :
        (tenant_id job_id : String) (max attempt_at : ℕ)
        → Moves (Within Recovered) (recover_stale_job x tenant_id job_id max attempt_at at)
    recover_stale_job-Recovered tenant_id job_id max attempt_at =
        recover_stale_job-Rows Recovered (λ r. untouched) tenant_id job_id max attempt_at
          (λ exhausted r named is_old. taken_up exhausted attempt_at is_old)

    pub recover_stale_job-Within :
        (who tenant_id job_id : String) (max attempt_at : ℕ)
        → Moves (Within (RowStep at who)) (recover_stale_job x tenant_id job_id max attempt_at at)
    recover_stale_job-Within who tenant_id job_id max attempt_at = record {
      at = λ s.
          Pairwise-map Recovered (RowStep at who) (Recovered-RowStep who)
            ((recover_stale_job-Recovered tenant_id job_id max attempt_at).at s);
    }

    -- The whole loop takes a row at most one step: a row that is recovered is stale no more.
    recover_all-Recovered :
        (config : RecoveryConfig) (round : ℕ) (stale : List WorkerLeasedJob)
        → Moves (Within Recovered) (recover_all x config at round stale)
    unfolding recover_all
    recover_all-Recovered config round [] = Within-Quiet Recovered (λ r. untouched) _ (Quiet-pure 0)
    recover_all-Recovered config round (job ∷ rest) =
        Moves-bind (Within Recovered) (Within Recovered) (Within Recovered) (λ t u p. p)
          (λ t u v p q. Pairwise-trans Recovered Recovered-trans p q) _ _
          (recover_stale_job-Recovered _ _ _ _)
          (λ updated.
            Moves-bind (Within Recovered) (Within Recovered) (Within Recovered) (λ t u p. p)
              (λ t u v p q. Pairwise-trans Recovered Recovered-trans p q) _ _
              (recover_all-Recovered config (round + 1) rest)
              (λ others. Within-Quiet Recovered (λ r. untouched) _ (Quiet-pure _)))

    pub recover_all-Within :
        (who : String) (config : RecoveryConfig) (round : ℕ) (stale : List WorkerLeasedJob)
        → Moves (Within (RowStep at who)) (recover_all x config at round stale)
    recover_all-Within who config round stale = record {
      at = λ s.
          Pairwise-map Recovered (RowStep at who) (Recovered-RowStep who)
            ((recover_all-Recovered config round stale).at s);
    }

module _ (x : Externals) where
  pub Quiet-map_all : (rows : List ContentJobRow) → Quiet (map_all x rows)
  unfolding map_all
  Quiet-map_all [] = Quiet-pure []
  Quiet-map_all (row ∷ rows) =
      Quiet-bind _ _ (Quiet-map_worker_leased_job x row)
        (λ job. Quiet-bind _ _ (Quiet-map_all rows) (λ jobs. Quiet-pure (job ∷ jobs)))

  pub Quiet-list_stale : (at limit : ℕ) → Quiet (list_stale_processing_jobs x at limit)
  unfolding list_stale_processing_jobs
  Quiet-list_stale at limit =
      Moves-translating ◌≡◌ (λ t. refl) _ _
        (Quiet-bind _ _ (Quiet-query _) (λ rows. Quiet-map_all _))

  pub list_stale-Within :
      (ρ : ContentJobRow → ContentJobRow → Type 0)
      → ((r : ContentJobRow) → ρ r r)
      → (at limit : ℕ) → Moves (Within ρ) (list_stale_processing_jobs x at limit)
  unfolding list_stale_processing_jobs
  list_stale-Within ρ same at limit =
      Within-translating ρ same _ _
        (Within-after ρ same _ _ (Quiet-query _) (λ rows. Within-Quiet ρ same _ (Quiet-map_all _)))
