-- ===== src/Publish/Executor/Invariants.antt =====
-- A run of the executor, with the engine and the other workers behind its calls.
use roam_content_engine.Prelude.{Bool, All, Pairwise}
use roam_content_engine.Db.{Session}
use roam_content_engine.Publish.Types.{Tables}
use roam_content_engine.Publish.Steps.Rows.{Rows, Pairwise-refl, Pairwise-trans, Pairwise-map}
use roam_content_engine.Publish.Steps.Shape.{IsWellFormed, RowStep-IsWellFormed}
use roam_content_engine.Publish.Steps.Status.{RowStep-terminal}
use roam_content_engine.Db.Rows.{All-Pairwise}
use roam_content_engine.Publish.Commands.Histories.{
  Grows, Grows-refl, Grows-trans, RowStep-Grows, Settled, Settled-refl, Settled-trans,
}
use roam_content_engine.Publish.Source.{ClaimedPublishJob}
use roam_content_engine.Publish.Heartbeat.{Dependencies}
use roam_content_engine.Publish.Executor.{execute}
use roam_content_engine.Publish.Executor.Keeps.{IsKeptBy, execute-Moves}

-- The jobs stay well-formed.
abbrev pub KeepsForm : Tables → Tables → Type 0
KeepsForm t u = All IsWellFormed t.publish_jobs → All IsWellFormed u.publish_jobs

-- If all jobs are well-formed and stay so through the engine's calls, they are well-formed after a
-- run of the executor, whether it returns, throws or ends the process.
pub execute-IsWellFormed :
    (deps : Dependencies) (claim : ClaimedPublishJob) (aborted : Bool) (s : Session Tables)
    → IsKeptBy KeepsForm deps.client
    → All IsWellFormed s.tables.publish_jobs
    → All IsWellFormed (execute deps claim aborted s).1.tables.publish_jobs
execute-IsWellFormed deps claim aborted s kept =
    (execute-Moves KeepsForm (λ t h. h) (λ x y z f g h. g (f h))
        (λ at who t u p. All-Pairwise IsWellFormed _ (λ x y. RowStep-IsWellFormed) p) deps kept
        claim aborted).at
      s

-- A job that is completed, failed or cancelled is unchanged by a run of the executor, and no job's
-- request changes and no count of attempts or polls falls, if so with the engine's calls.
pub execute-Settled :
    (deps : Dependencies) (claim : ClaimedPublishJob) (aborted : Bool) (s : Session Tables)
    → IsKeptBy (Rows (λ r r'. Settled r r' × Grows r r')) deps.client
    → Pairwise
        (λ r r'. Settled r r' × Grows r r')
        s.tables.publish_jobs
        (execute deps claim aborted s).1.tables.publish_jobs
execute-Settled deps claim aborted s kept =
    (execute-Moves (Rows (λ r r'. Settled r r' × Grows r r'))
        (λ t. Pairwise-refl _ (λ r. (Settled-refl r, Grows-refl r)) t.publish_jobs)
        (λ x y z.
          Pairwise-trans _ (λ a b c p q. (Settled-trans a b c p.0 q.0, Grows-trans a b c p.1 q.1)))
        (λ at who t u. Pairwise-map _ _ (λ x y st. (RowStep-terminal st, RowStep-Grows st))) deps
        kept claim aborted).at
      s
