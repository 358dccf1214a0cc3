-- ===== src/Publish/Steps/Refinement/Recovery.antt =====
-- The recovery of stale leases: one transaction with an UPDATE for each stale row.
use roam_content_engine.Prelude.{
  ℕ, ◌+◌, String, true, Option, none, some, List, [], ◌∷◌, ◌≡◌, ◌≢◌, &&-true, str_eq, arith,
}
use roam_content_engine.Db.Moves.{
  Moves, Moves-Quiet, Quiet-pure, Quiet-query, Moves-after, Moves-bind, Moves-translating,
  Moves-transaction,
}
use roam_content_engine.Publish.Types.{PublishJob, Tables, same_status}
use roam_content_engine.Publish.Repository.Recovery.{
  is_stale, recovery, recovered_row, recover_rows, recover_stale_leases,
}
use roam_content_engine.Publish.Steps.{RowStep, stays, recovers}
use roam_content_engine.Publish.Steps.Rows.{
  Rows, SameJobs, SameJobs-insert_event, SameJobs-then, SameJobs-pure, Pairwise-refl,
  Pairwise-trans, Pairwise-map, Moves-update_jobs,
}
use roam_content_engine.Publish.Steps.Within.{Within}

module _ (now max delay : ℕ) where
  -- a row that is left alone, or that was stale and is recovered
  data Recovered (r : PublishJob) : PublishJob → Type 0 where
    untouched : Recovered r r
    by_row :
        (stale : PublishJob) → is_stale now r ≡ true → Recovered r (recovery now max delay stale r)

  -- A recovered row is not stale, so that two rounds on one row are one.
  not_stale : (stale r : PublishJob) → is_stale now (recovery now max delay stale r) ≢ true
  unfolding same_status
  not_stale stale r h = ground arith

  Recovered-trans : (x y z : PublishJob) → Recovered x y → Recovered y z → Recovered x z
  Recovered-trans x y z untouched q = q
  Recovered-trans x y z (by_row stale h) untouched = by_row stale h
  Recovered-trans x y z (by_row stale h) (by_row other k) = absurd (not_stale stale x k)

  abbrev InRows : Tables → Tables → Type 0
  InRows = Rows Recovered

  InRows-refl : (t : Tables) → InRows t t
  InRows-refl t = Pairwise-refl Recovered (λ r. untouched) t.publish_jobs

  recovered_row-SameJobs :
      (stale : PublishJob) (updated : Option PublishJob)
      → Moves SameJobs (recovered_row now max delay stale updated)
  unfolding recovered_row
  recovered_row-SameJobs stale none = SameJobs-pure 0
  recovered_row-SameJobs stale (some r) =
      SameJobs-then _ _ (SameJobs-insert_event _ _ _ _ _ _) (λ _. SameJobs-pure 1)

  recover_rows-InRows :
      (count : ℕ) (rows : List PublishJob) → Moves InRows (recover_rows now max delay count rows)
  unfolding recover_rows
  recover_rows-InRows count [] = Moves-Quiet InRows InRows-refl _ (Quiet-pure count)
  recover_rows-InRows count (stale ∷ rest) =
      Moves-bind InRows InRows InRows (λ x y p. p)
        (λ x y z p q. Pairwise-trans Recovered Recovered-trans p q) _ _
        (Moves-update_jobs Recovered (λ r. untouched) _ _
          (λ r h. by_row stale (&&-true (str_eq r.id stale.id) _ h).1))
        (λ updated.
          Moves-bind SameJobs InRows InRows (λ x y e. rw (← e) (InRows-refl x))
            (λ x y z e q. rw e q) _ _ (recovered_row-SameJobs stale updated)
            (λ n. recover_rows-InRows (count + n) rest))

  recover_stale_leases-InRows :
      (limit : ℕ) → Moves InRows (recover_stale_leases now max delay limit)
  unfolding recover_stale_leases
  recover_stale_leases-InRows limit = Moves-translating InRows InRows-refl _ _ (
      Moves-transaction InRows InRows-refl _
        (Moves-after InRows InRows-refl _ _ (Quiet-query _) (recover_rows-InRows 0)))

  Recovered-RowStep : (who : String) (x y : PublishJob) → Recovered x y → RowStep now who x y
  Recovered-RowStep who x y untouched = stays
  Recovered-RowStep who x y (by_row stale h) = recovers stale max delay h

  pub recover_stale_leases-Within :
      (who : String) (limit : ℕ) → Moves (Within now who) (recover_stale_leases now max delay limit)
  recover_stale_leases-Within who limit = record {
    at = λ s.
        Pairwise-map Recovered (RowStep now who) (Recovered-RowStep who)
          ((recover_stale_leases-InRows limit).at s);
  }
