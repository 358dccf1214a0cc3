-- ===== src/Content/Executor/Invariants.antt =====
-- A run of the executor of content jobs, with the processor and the other workers behind its calls.
use roam_content_engine.Prelude.{Bool, true, ◌≡◌, refl, All, ◌∙◌, subst, sym}
use roam_content_engine.Db.{Session}
use roam_content_engine.Db.Rows.{All-Pairwise}
use roam_content_engine.Db.Extends.{
  Extends, Extends-refl, Extends-trans, Extends-Pairwise, Extends-map,
}
use roam_content_engine.Content.Types.{WorkerLeasedJob, Tables}
use roam_content_engine.Content.Results.{Externals}
use roam_content_engine.Content.Steps.{RowStep}
use roam_content_engine.Content.Steps.Shape.{IsWellFormed, RowStep-IsWellFormed}
use roam_content_engine.Content.Steps.Status.{is_terminal, RowStep-terminal}
use roam_content_engine.Content.Executor.{Dependencies, execute}
use roam_content_engine.Content.Executor.Keeps.{ProcessorKeeps, execute-Moves}

abbrev pub KeepsForm : Tables → Tables → Type 0
KeepsForm t u = All IsWellFormed t.content_jobs → All IsWellFormed u.content_jobs

-- ended jobs stay as they are, and jobs may be added
abbrev pub KeepsEnded : Tables → Tables → Type 0
KeepsEnded t u =
    Extends (λ r r'. is_terminal r.status ≡ true → r' ≡ r) (λ _. Unit {0}) t.content_jobs
      u.content_jobs

module _ (x : Externals) (deps : Dependencies) (job : WorkerLeasedJob) (aborted : Bool)
    (s : Session Tables) where
  -- If all content jobs are well-formed and stay so through the processor's awaited calls, they are
  -- well-formed after a run of the executor, whether it returns, throws or ends the process.
  pub execute-KeepsForm :
      ProcessorKeeps KeepsForm deps.processor job
      → KeepsForm s.tables (execute x deps job aborted s).1.tables
  execute-KeepsForm kept =
      (execute-Moves KeepsForm (λ t h. h) (λ t u v f g h. g (f h))
          (λ at who t u p. All-Pairwise IsWellFormed _ (λ r r'. RowStep-IsWellFormed) p) x deps job
          aborted kept).at
        s

  -- A content job that is completed, failed or cancelled is unchanged by a run of the executor, if so
  -- by the processor's awaited calls.
  pub execute-KeepsEnded :
      ProcessorKeeps KeepsEnded deps.processor job
      → KeepsEnded s.tables (execute x deps job aborted s).1.tables
  execute-KeepsEnded kept =
      (execute-Moves KeepsEnded (λ t. Extends-refl _ (λ _. Unit) (λ r e. refl) t.content_jobs)
          (λ t u v.
            Extends-trans _ (λ _. Unit) (λ a b r n. tt)
              (λ a b c f g e. g (subst (λ y. is_terminal y.status ≡ true) (sym (f e)) e) ∙ f e))
          (λ at who t u p.
            Extends-map _ _ (λ _. Unit {0}) (λ _. Unit {0}) (λ r r'. RowStep-terminal) (λ r n. n)
              (Extends-Pairwise (RowStep at who) (λ _. Unit {0}) p))
          x deps job aborted kept).at
        s
