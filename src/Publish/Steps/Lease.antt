-- ===== src/Publish/Steps/Lease.antt =====
-- A lease that is still to expire keeps everybody else off the row.
use roam_content_engine.Prelude.{
  ℕ, String, Option, none, some, true, ◌≡◌, refl, ◌⊎◌, inl, inr, arith, str_eq, eq_iff, holds,
  &&-true,
}
use roam_content_engine.Publish.Types.{PublishJob, same_status}
use roam_content_engine.Publish.Repository.Leases.{is_open}
use roam_content_engine.Publish.Steps.{
  RowStep, is_worked_by, is_leased_by, stays, claims, renews, stages, submits, waits, retries,
  completes, fails, calls_off, cancels, recovers,
}

-- a row has one worker
same_worker :
    (w v : String) (r : PublishJob) → is_worked_by w r ≡ true → is_worked_by v r ≡ true → w ≡ v
same_worker w v r h k = owner r.lease_owner (&&-true _ _ h).1 (&&-true _ _ k).1
  where
    owner :
        (o : Option String)
        → holds (λ u. str_eq u w) o ≡ true
        → holds (λ u. str_eq u v) o ≡ true
        → w ≡ v
    owner none a b = cc
    owner (some u) a b = cc ((eq_iff u w).0 a, (eq_iff u v).0 b)

leased_same :
    (now : ℕ) (w v : String) (r : PublishJob)
    → is_leased_by now w r ≡ true
    → is_leased_by now v r ≡ true
    → w ≡ v
leased_same now w v r h k = same_worker w v r (&&-true _ _ h).0 (&&-true _ _ k).0

-- Of a leased row, a step is made by its worker, or changes nothing.
pub RowStep-leased :
    {now : ℕ} {who : String} {r r' : PublishJob} (w : String)
    → RowStep now who r r'
    → is_leased_by now w r ≡ true
    → (r' ≡ r) ⊎ (who ≡ w)
unfolding same_status is_open
RowStep-leased w stays l = inl refl
RowStep-leased w (claims d o f) l = absurd (ground arith)
RowStep-leased w (cancels o) l = absurd (ground arith)
RowStep-leased w (recovers stale max delay h) l = absurd (ground arith)
RowStep-leased {now} {who} {r} w (renews _ h) l = inr (same_worker who w r h (&&-true _ _ l).0)
RowStep-leased {now} {who} {r} w (stages _ h) l = inr (same_worker who w r h (&&-true _ _ l).0)
RowStep-leased {now} {who} {r} w (submits _ _ _ _ _ h) l = inr (leased_same now who w r h l)
RowStep-leased {now} {who} {r} w (waits _ _ _ _ h) l = inr (leased_same now who w r h l)
RowStep-leased {now} {who} {r} w (retries _ _ _ h) l = inr (leased_same now who w r h l)
RowStep-leased {now} {who} {r} w (completes _ _ _ _ h) l = inr (leased_same now who w r h l)
RowStep-leased {now} {who} {r} w (fails _ _ _ _ _ h) l = inr (leased_same now who w r h l)
RowStep-leased {now} {who} {r} w (calls_off _ _ _ h) l = inr (leased_same now who w r h l)
