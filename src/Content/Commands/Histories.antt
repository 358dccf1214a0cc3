-- ===== src/Content/Commands/Histories.antt =====
-- What holds of the table after any call, and after any history of calls.
use roam_content_engine.Prelude.{
  ℕ, String, List, [], ◌∷◌, ◌≡◌, ◌≢◌, refl, true, ◌⊎◌, inl, inr, All, ◌∙◌, subst, sym,
}
use roam_content_engine.Db.{Session}
use roam_content_engine.Db.Extends.{Extends, Extends-refl, Extends-trans, Extends-map, All-Extends}
use roam_content_engine.Content.Types.{ContentJobRow, ContentJobStatus, Tables}
use roam_content_engine.Content.Results.{Externals}
use roam_content_engine.Content.Creation.Rows.{IsFresh, fresh}
use roam_content_engine.Content.Steps.{RowStep, is_leased_by}
use roam_content_engine.Content.Steps.Status.{
  Allowed, is_terminal, RowStep-Allowed, RowStep-terminal, RowStep-leased,
}
use roam_content_engine.Content.Steps.Shape.{IsWellFormed, RowStep-IsWellFormed}
use roam_content_engine.Content.Commands.{Command, perform, perform-Evolves, time, agent}

-- The session after the calls, one by one; what a call returns or throws is dropped.
unfoldable pub run : Externals → List Command → Session Tables → Session Tables
run x [] s = s
run x (c ∷ cs) s = run x cs (perform x c s).1

abbrev rows : Session Tables → List ContentJobRow
rows s = s.tables.content_jobs

IsFresh-IsWellFormed : (r : ContentJobRow) → IsFresh r → IsWellFormed r
IsFresh-IsWellFormed r (fresh input key fingerprint id correlation_id at) =
    ((refl, refl, refl), refl)

-- While a worker holds a lease on a content job that is still to expire, no call by anybody else to a
-- method of the source (for another worker), to the recovery of stale jobs, to the creation of jobs
-- or to their cancellation changes the job, at that time.
pub leased_unchanged :
    (x : Externals) (c : Command) (any : ℕ) (w nobody : String) (s : Session Tables)
    → agent nobody c ≢ w
    → Extends
        (λ r r'. is_leased_by (time any c) w r ≡ true → r' ≡ r)
        IsFresh
        (rows s)
        (rows (perform x c s).1)
leased_unchanged x c any w nobody s other =
    Extends-map _ _ IsFresh IsFresh (λ r r' st l. stay (RowStep-leased w st l)) (λ r n. n)
      ((perform-Evolves x any nobody c).at s)
  where
    stay : {r r' : ContentJobRow} → (r' ≡ r) ⊎ (agent nobody c ≡ w) → r' ≡ r
    stay (inl e) = e
    stay (inr e) = absurd (other e)

-- No call changes a content job's status but as the transition policy allows, whatever fails on the
-- way, and jobs that are added are queued.
pub command-Allowed :
    (x : Externals) (c : Command) (s : Session Tables)
    → Extends
        (λ r r'. Allowed r.status r'.status)
        (λ r. r.status ≡ ContentJobStatus.queued)
        (rows s)
        (rows (perform x c s).1)
command-Allowed x c s =
    Extends-map _ _ IsFresh _ (λ r r'. RowStep-Allowed) IsFresh-queued
      ((perform-Evolves x 0 "" c).at s)
  where
    IsFresh-queued : (r : ContentJobRow) → IsFresh r → r.status ≡ ContentJobStatus.queued
    IsFresh-queued r (fresh input key fingerprint id correlation_id at) = refl

-- Every content job stays well-formed through any history of calls.
pub history-IsWellFormed :
    (x : Externals) (cs : List Command) (s : Session Tables)
    → All IsWellFormed (rows s)
    → All IsWellFormed (rows (run x cs s))
unfolding run
history-IsWellFormed x [] s h = h
history-IsWellFormed x (c ∷ cs) s h = history-IsWellFormed x cs (perform x c s).1 (
    All-Extends IsWellFormed IsFresh _ (λ r r'. RowStep-IsWellFormed) IsFresh-IsWellFormed
      ((perform-Evolves x 0 "" c).at s) h)

-- A relation that each step keeps, and that composes, holds between the ends of a history.
run_induction :
    (x : Externals) (ρ : ContentJobRow → ContentJobRow → Type 0)
    → ((r : ContentJobRow) → ρ r r)
    → ((a b c : ContentJobRow) → ρ a b → ρ b c → ρ a c)
    → ((now : ℕ) (who : String) (a b : ContentJobRow) → RowStep now who a b → ρ a b)
    → (cs : List Command) (s : Session Tables)
    → Extends ρ (λ _. Unit {0}) (rows s) (rows (run x cs s))
unfolding run
run_induction x ρ same comp step [] s = Extends-refl ρ (λ _. Unit) same (rows s)
run_induction x ρ same comp step (c ∷ cs) s =
    Extends-trans ρ (λ _. Unit) (λ a b r n. tt) comp
      (Extends-map _ _ IsFresh (λ _. Unit) (step _ _) (λ r n. tt) ((perform-Evolves x 0 "" c).at s))
      (run_induction x ρ same comp step cs (perform x c s).1)

-- A content job that is completed, failed or cancelled is never changed by any history of calls.
pub ended_unchanged :
    (x : Externals) (cs : List Command) (s : Session Tables)
    → Extends
        (λ r r'. is_terminal r.status ≡ true → r' ≡ r)
        (λ _. Unit {0})
        (rows s)
        (rows (run x cs s))
ended_unchanged x cs s =
    run_induction x (λ r r'. is_terminal r.status ≡ true → r' ≡ r) (λ r t. refl)
      (λ a b c f g t. g (subst (λ y. is_terminal y.status ≡ true) (sym (f t)) t) ∙ f t)
      (λ now who a b. RowStep-terminal) cs s
