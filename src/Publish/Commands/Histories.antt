-- ===== src/Publish/Commands/Histories.antt =====
-- What holds of the table after any command, and after any history of commands.
use roam_content_engine.Prelude.{
  ℕ, String, List, [], ◌∷◌, ◌≡◌, ◌≢◌, refl, true, ◌⊎◌, inl, inr, All, Pairwise, ◌≤◌, arith, ◌∙◌, ap,
}
use roam_content_engine.Db.{Session}
use roam_content_engine.Publish.Types.{PublishJob, Tables}
use roam_content_engine.Publish.Steps.{RowStep, is_leased_by}
use roam_content_engine.Publish.Steps.Rows.{Pairwise-refl, Pairwise-trans, Pairwise-map}
use roam_content_engine.Db.Rows.{All-Pairwise}
use roam_content_engine.Publish.Steps.Status.{
  Allowed, is_terminal, RowStep-Allowed, RowStep-terminal,
}
use roam_content_engine.Publish.Steps.Shape.{IsWellFormed, RowStep-IsWellFormed}
use roam_content_engine.Publish.Steps.Lease.{RowStep-leased}
use roam_content_engine.Publish.Steps.Request.{
  SameRequest, SameRequest-refl, SameRequest-trans, RowStep-SameRequest, RowStep-counts,
}
use roam_content_engine.Publish.Commands.{Command, perform, perform-Within, time, agent}

-- The session after the calls, one by one; what a call returns or throws is dropped.
unfoldable pub run : List Command → Session Tables → Session Tables
run [] s = s
run (c ∷ cs) s = run cs (perform c s).1

abbrev rows : Session Tables → List PublishJob
rows s = s.tables.publish_jobs

-- No call changes a job's status but as the transition policy allows, whatever fails on the way.
pub perform-Allowed :
    (c : Command) (s : Session Tables)
    → Pairwise (λ r r'. Allowed r.status r'.status) (rows s) (rows (perform c s).1)
perform-Allowed c s = Pairwise-map _ _ (λ x y. RowStep-Allowed) ((perform-Within "" c).at s)

-- While a worker holds a lease that is still to expire, no call by anybody else, at that time,
-- changes its job.
pub perform_leased :
    (c : Command) (w nobody : String) (s : Session Tables)
    → agent nobody c ≢ w
    → Pairwise (λ r r'. is_leased_by (time c) w r ≡ true → r' ≡ r) (rows s) (rows (perform c s).1)
perform_leased c w nobody s other =
    Pairwise-map _ _ (λ x y st l. stay (RowStep-leased w st l)) ((perform-Within nobody c).at s)
  where
    stay : {x y : PublishJob} → (y ≡ x) ⊎ (agent nobody c ≡ w) → y ≡ x
    stay (inl e) = e
    stay (inr e) = absurd (other e)

-- Every job stays well-formed through any history of calls.
pub run-IsWellFormed :
    (cs : List Command) (s : Session Tables)
    → All IsWellFormed (rows s)
    → All IsWellFormed (rows (run cs s))
unfolding run
run-IsWellFormed [] s h = h
run-IsWellFormed (c ∷ cs) s h =
    run-IsWellFormed cs (perform c s).1
      (All-Pairwise IsWellFormed _ (λ x y. RowStep-IsWellFormed) ((perform-Within "" c).at s) h)

-- A relation that each step keeps, and that composes, holds between the ends of a history.
run_induction :
    (ρ : PublishJob → PublishJob → Type 0)
    → ((r : PublishJob) → ρ r r)
    → ((x y z : PublishJob) → ρ x y → ρ y z → ρ x z)
    → ((now : ℕ) (who : String) (x y : PublishJob) → RowStep now who x y → ρ x y)
    → (cs : List Command) (s : Session Tables) → Pairwise ρ (rows s) (rows (run cs s))
unfolding run
run_induction ρ same comp step [] s = Pairwise-refl ρ same (rows s)
run_induction ρ same comp step (c ∷ cs) s =
    Pairwise-trans ρ comp (Pairwise-map _ _ (step _ _) ((perform-Within "" c).at s))
      (run_induction ρ same comp step cs (perform c s).1)

-- a job that is completed, failed or cancelled is not changed
abbrev pub Settled : PublishJob → PublishJob → Type 0
Settled r r' = is_terminal r.status ≡ true → r' ≡ r

pub Settled-refl : (r : PublishJob) → Settled r r
Settled-refl r t = refl

pub Settled-trans : (x y z : PublishJob) → Settled x y → Settled y z → Settled x z
Settled-trans x y z p q t = q (rw (ap (λ (r : PublishJob). r.status) (p t)) t) ∙ p t

-- A job that is completed, failed or cancelled is never changed again.
pub run_terminal :
    (cs : List Command) (s : Session Tables)
    → Pairwise (λ r r'. is_terminal r.status ≡ true → r' ≡ r) (rows s) (rows (run cs s))
run_terminal = run_induction Settled Settled-refl Settled-trans (λ now who x y. RowStep-terminal)

-- the request is the same, and no count is lower
abbrev pub Grows : PublishJob → PublishJob → Type 0
Grows r r' =
    SameRequest r r' × (r.attempt_count ≤ r'.attempt_count) × (r.poll_count ≤ r'.poll_count)

pub Grows-refl : (r : PublishJob) → Grows r r
Grows-refl r = (SameRequest-refl r, omega arith, omega arith)

pub Grows-trans : (x y z : PublishJob) → Grows x y → Grows y z → Grows x z
Grows-trans x y z p q = (SameRequest-trans x y z p.0 q.0, omega arith, omega arith)

pub RowStep-Grows : {now : ℕ} {who : String} {x y : PublishJob} → RowStep now who x y → Grows x y
RowStep-Grows st = (RowStep-SameRequest st, (RowStep-counts st).0, (RowStep-counts st).1)

-- What is to be published, for whom and under which idempotency keys never changes, and the
-- numbers of attempts and of polls never fall.
pub run-Grows : (cs : List Command) (s : Session Tables) → Pairwise Grows (rows s) (rows (run cs s))
run-Grows = run_induction Grows Grows-refl Grows-trans (λ now who x y. RowStep-Grows)
