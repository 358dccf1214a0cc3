-- ===== src/Content/Commands.antt =====
-- The calls by which the API, the workers' source and the recovery of stale jobs write content_jobs, as
-- commands. The methods of the repository that ask for no lease are in Unleased.
pub mod Histories
pub mod Unleased
use roam_content_engine.Prelude.{ℕ, String, Bool, true, Option, ◌≡◌, refl, subst}
use roam_content_engine.Json.{Json}
use roam_content_engine.Db.{Db, ◌>>=◌, pure}
use roam_content_engine.Db.Moves.{Moves, Moves-before, Quiet-pure}
use roam_content_engine.Db.Extends.{Extends, Extends-Pairwise, Extends-map}
use roam_content_engine.Content.Types.{
  ContentJobRow, ContentJobStage, CreateContentJobInput, Tables,
}
use roam_content_engine.Content.Results.{Externals}
use roam_content_engine.Content.Source.{
  Caller, acquire_next, renew_lease, mark_stage, mark_completed, schedule_retry, mark_failed,
}
use roam_content_engine.Content.Recovery.{recover_stale_job}
use roam_content_engine.Content.Repository.{cancel}
use roam_content_engine.Content.Creation.{create_or_get_idempotent}
use roam_content_engine.Content.Creation.Rows.{IsFresh, create-Grows}
use roam_content_engine.Content.Steps.{RowStep, stays, cancels}
use roam_content_engine.Content.Steps.Within.{Within}
use roam_content_engine.Content.Steps.Refinement

pub data Command : Type 0 where
  creating : CreateContentJobInput → Command
  acquiring : (worker : String) (lease_ms now : ℕ) → Command
  renewing : Caller → (lease_ms : ℕ) → Command
  staging : Caller → ContentJobStage → Command
  completing : Caller → (result : Option Json) → Command
  retrying : Caller → (code message : String) (attempt_at : ℕ) → Command
  failing : Caller → (code message : String) → Command
  recovering : (tenant_id job_id : String) (max_attempts attempt_at now : ℕ) → Command
  cancelling : (tenant_id job_id : String) → Command

finished {ℓ} : {A : Type ℓ} → Db Tables A → Db Tables (Unit {0})
finished m = m >>= λ _. pure tt

-- The call of the method.
unfoldable pub perform : Externals → Command → Db Tables (Unit {0})
unfolding finished
perform x (creating input) = finished (create_or_get_idempotent x input)
perform x (acquiring w d now) = finished (acquire_next x w d now)
perform x (renewing c d) = finished (renew_lease x c d)
perform x (staging c stage) = finished (mark_stage x c stage)
perform x (completing c result) = finished (mark_completed x c result)
perform x (retrying c code message attempt_at) =
    finished (schedule_retry x c code message attempt_at)
perform x (failing c code message) = finished (mark_failed x c code message)
perform x (recovering tenant_id job_id max attempt_at now) =
    finished (recover_stale_job x tenant_id job_id max attempt_at now)
perform x (cancelling tenant_id job_id) = finished (cancel x tenant_id job_id)

-- The time that the call is given; a creation and a cancellation take theirs from the clock, and
-- any time serves.
abbrev pub time : ℕ → Command → ℕ
time any (creating input) = any
time any (acquiring w d now) = now
time any (renewing c d) = c.now
time any (staging c stage) = c.now
time any (completing c result) = c.now
time any (retrying c _ _ _) = c.now
time any (failing c _ _) = c.now
time any (recovering _ _ _ _ now) = now
time any (cancelling _ _) = any

-- The worker that calls; the others are made by no worker, and take `nobody`.
abbrev pub agent : String → Command → String
agent nobody (creating input) = nobody
agent nobody (acquiring w d now) = w
agent nobody (renewing c d) = c.worker_id
agent nobody (staging c stage) = c.worker_id
agent nobody (completing c result) = c.worker_id
agent nobody (retrying c _ _ _) = c.worker_id
agent nobody (failing c _ _) = c.worker_id
agent nobody (recovering _ _ _ _ _) = nobody
agent nobody (cancelling _ _) = nobody

-- The old rows are at most one step further, and all others are fresh.
abbrev pub Evolves : ℕ → String → Tables → Tables → Type 0
Evolves now who t t' = Extends (RowStep now who) IsFresh t.content_jobs t'.content_jobs

finished-Moves {ℓ} :
    {A : Type ℓ} (now : ℕ) (who : String) (m : Db Tables A)
    → Moves (Within (RowStep now who)) m
    → Moves (Evolves now who) (finished m)
unfolding finished
finished-Moves now who m k =
    Moves-before (Evolves now who) m _
      (record { at = λ s. Extends-Pairwise (RowStep now who) IsFresh (k.at s) })
      (λ _. Quiet-pure tt)

-- Each call takes every job at most one step of the step relation, at the time of the call and for
-- its caller, and adds at most fresh jobs behind them, whatever the database reports. For calls that
-- no worker makes `nobody` stands for the caller, and `any` for the time of those that are given none.
pub perform-Evolves :
    (x : Externals) (any : ℕ) (nobody : String) (c : Command)
    → Moves (Evolves (time any c) (agent nobody c)) (perform x c)
unfolding perform finished
perform-Evolves x any nobody (creating input) =
    Moves-before (Evolves any nobody) _ _
      (record {
        at = λ s.
            Extends-map ◌≡◌ (RowStep any nobody) IsFresh IsFresh
              (λ r r' e. subst (RowStep any nobody r) e stays) (λ r n. n)
              ((create-Grows x input).at s);
      })
      (λ _. Quiet-pure tt)
perform-Evolves x any nobody (acquiring w d now) =
    finished-Moves _ _ _ (Refinement.Source.acquire_next-Within x w d now)
perform-Evolves x any nobody (renewing c d) =
    finished-Moves _ _ _ (Refinement.Source.renew_lease-Within x c d)
perform-Evolves x any nobody (staging c stage) =
    finished-Moves _ _ _ (Refinement.Source.mark_stage-Within x c stage)
perform-Evolves x any nobody (completing c result) =
    finished-Moves _ _ _ (Refinement.Source.mark_completed-Within x c result)
perform-Evolves x any nobody (retrying c code message attempt_at) =
    finished-Moves _ _ _ (Refinement.Source.schedule_retry-Within x c code message attempt_at)
perform-Evolves x any nobody (failing c code message) =
    finished-Moves _ _ _ (Refinement.Source.mark_failed-Within x c code message)
perform-Evolves x any nobody (recovering tenant_id job_id max attempt_at now) =
    finished-Moves _ _ _
      (Refinement.Recovery.recover_stale_job-Within now x nobody tenant_id job_id max attempt_at)
perform-Evolves x any nobody (cancelling tenant_id job_id) = finished-Moves _ _ _ (
    Refinement.Repository.cancel-Within x tenant_id job_id (RowStep any nobody) (λ r. stays)
      (λ ended_at at r h. cancels ended_at at h))
