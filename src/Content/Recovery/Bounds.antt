-- ===== src/Content/Recovery/Bounds.antt =====
-- How many jobs a run of the recovery takes up.
use mathlib.Core.List.Memᴰ.{head, tail}
use roam_content_engine.Prelude.{
  ℕ, zero, suc, ◌+◌, ◌≤◌, Bool, true, false, List, [], ◌∷◌, ◌≡◌, refl, sym, ap, subst, inl, inr,
  Bool-cases, length, take, select, is_some, arith, if◌then◌else◌, All, Memᴰ, Pairwise,
}
use roam_content_engine.Db.{Db, Session, Result, ok, thrown, crashed, ◌>>=◌, now}
use roam_content_engine.Db.Moves.{Moves, Moves-bind, Quiet, Quiet-pure}
use roam_content_engine.Db.Rows.{Pairwise-trans, Pairwise-refl}
use roam_content_engine.Db.Extends.{All-map}
use roam_content_engine.Db.Ensures.{
  Ensures, Ensures-pure, Ensures-query, Ensures-bind, Ensures-bind_where, Ensures-translating,
}
use roam_content_engine.Content.Types.{ContentJobRow, WorkerLeasedJob, Tables}
use roam_content_engine.Content.Results.{Externals}
use roam_content_engine.Content.Statements.{names_job}
use roam_content_engine.Content.Source.{is_stale, recovery}
use roam_content_engine.Content.Recovery.{
  RecoveryConfig, map_all, list_stale_processing_jobs, recover_all, run_once,
}
use roam_content_engine.Content.Steps.Within.{Within, Within-Quiet}
use roam_content_engine.Content.Steps.Refinement.Recovery.{
  recover_stale_job-Rows, not_stale, Quiet-list_stale,
}

length-take : {R : Type 0} (n : ℕ) (xs : List R) → length (take n xs) ≤ n
length-take zero xs = omega arith
length-take (suc n) [] = omega arith
length-take (suc n) (x ∷ xs) = omega (arith, length-take n xs)

length-select : {R : Type 0} (p : R → Bool) (xs : List R) → length (select p xs) ≤ length xs
length-select p [] = omega arith
length-select p (x ∷ xs) = elim (Bool-cases (p x)) [
  | inl e ↦ rw e (omega (arith, length-select p xs))
  | inr e ↦ rw e (omega (arith, length-select p xs))
]

module _ (x : Externals) where
  map_all-length :
      (rows : List ContentJobRow) (limit : ℕ)
      → length rows ≤ limit
      → Ensures (λ jobs _. length jobs ≤ limit) (map_all x rows)
  unfolding map_all
  map_all-length [] limit h = Ensures-pure _ [] (λ t. h)
  map_all-length (row ∷ rows) zero h = absurd (omega arith)
  map_all-length (row ∷ rows) (suc limit) h = Ensures-bind _ _ _ (λ job.
      Ensures-bind_where _ (λ jobs. length jobs ≤ limit) _ _
        (map_all-length rows limit (omega arith))
        (λ jobs l. Ensures-pure _ (job ∷ jobs) (λ t. omega arith)))

  list_stale-length :
      (at limit : ℕ)
      → Ensures (λ jobs _. length jobs ≤ limit) (list_stale_processing_jobs x at limit)
  unfolding list_stale_processing_jobs
  list_stale-length at limit = Ensures-translating _ _ _ (
      Ensures-bind_where _ (λ rows. length rows ≤ limit) _ _
        (Ensures-query _ _ (λ t locked. length-take limit _))
        (λ rows l.
          map_all-length _ limit
            (omega (arith, length-select (λ r. is_some r.lease_expires_at) rows))))

  module _ (config : RecoveryConfig) where
    counted-le : (b : Bool) (n m : ℕ) → n ≤ m → (if b then n + 1 else n) ≤ suc m
    counted-le true n m h = omega arith
    counted-le false n m h = omega arith

    recover_all-le :
        (at round : ℕ) (stale : List WorkerLeasedJob)
        → Ensures (λ n _. n ≤ length stale) (recover_all x config at round stale)
    unfolding recover_all
    recover_all-le at round [] = Ensures-pure _ 0 (λ t. omega arith)
    recover_all-le at round (job ∷ rest) = Ensures-bind _ _ _ (λ updated.
        Ensures-bind_where _ (λ n. n ≤ length rest) _ _ (recover_all-le at (round + 1) rest)
          (λ others l. Ensures-pure _ _ (λ t. counted-le (is_some updated) others _ l)))

    run_once-Ensures : (limit : ℕ) → Ensures (λ n _. n ≤ limit) (run_once x config limit)
    unfolding run_once
    run_once-Ensures limit = Ensures-bind _ _ _ (λ at.
        Ensures-bind_where _ (λ jobs. length jobs ≤ limit) _ _ (list_stale-length at limit)
          (λ jobs l. record {
            at = λ s n e. let few = (recover_all-le at 0 jobs).at s n e in omega arith;
          }))

-- A row is left as it is; or it was stale, has the tenant and the id of one of the jobs, and is
-- processed no more.
pub data TakenUp (at : ℕ) (jobs : List WorkerLeasedJob) (r : ContentJobRow)
    : ContentJobRow → Type 0 where
  left : TakenUp at jobs r r
  taken :
      {r' : ContentJobRow} (job : WorkerLeasedJob)
      → Memᴰ job jobs
      → names_job job.base.tenant_id job.base.id r ≡ true
      → is_stale at r ≡ true
      → is_stale at r' ≡ false
      → TakenUp at jobs r r'

module _ (x : Externals) (config : RecoveryConfig) (at : ℕ) (jobs : List WorkerLeasedJob) where
  TakenUp-trans :
      (a b c : ContentJobRow) → TakenUp at jobs a b → TakenUp at jobs b c → TakenUp at jobs a c
  TakenUp-trans a b c left q = q
  TakenUp-trans a b c (taken job m n h k) left = taken job m n h k
  TakenUp-trans a b c (taken job m n h k) (taken other m' n' h' k') = taken job m n h k'

  recover_all-TakenUp :
      (round : ℕ) (part : List WorkerLeasedJob)
      → All (λ job. Memᴰ job jobs) part
      → Moves (Within (TakenUp at jobs)) (recover_all x config at round part)
  unfolding recover_all
  recover_all-TakenUp round [] h = Within-Quiet (TakenUp at jobs) (λ r. left) _ (Quiet-pure 0)
  recover_all-TakenUp round (job ∷ rest) (there, h) =
      let W = Within (TakenUp at jobs) in
      Moves-bind W W W (λ t u p. p) (λ t u v p q. Pairwise-trans _ TakenUp-trans p q) _ _
        (recover_stale_job-Rows at x (TakenUp at jobs) (λ r. left) _ _ _ _
          (λ exhausted r named is_old. taken job there named is_old (not_stale_now exhausted _ r)))
        (λ updated.
          Moves-bind W W W (λ t u p. p) (λ t u v p q. Pairwise-trans _ TakenUp-trans p q) _ _
            (recover_all-TakenUp (round + 1) rest h)
            (λ others. Within-Quiet (TakenUp at jobs) (λ r. left) _ (Quiet-pure _)))
    where
      not_stale_now :
          (exhausted : Bool) (attempt_at : ℕ) (r : ContentJobRow)
          → is_stale at (recovery exhausted attempt_at at r) ≡ false
      not_stale_now exhausted attempt_at r =
          elim (Bool-cases (is_stale at (recovery exhausted attempt_at at r))) [
            | inr no_more ↦ no_more
            | inl still ↦ absurd (not_stale at exhausted attempt_at r still)
          ]

-- Of all rows at most as many jobs' are taken up as the limit says.
pub record TakesAtMost (limit at : ℕ) (t t' : Tables) : Type 0 where
  pub jobs : List WorkerLeasedJob
  pub few : length jobs ≤ limit
  pub rows : Pairwise (TakenUp at jobs) t.content_jobs t'.content_jobs

members : {A : Type 0} (xs : List A) → All (λ a. Memᴰ a xs) xs
members [] = tt
members (x ∷ xs) = (head refl, All-map _ _ (λ a. tail) xs (members xs))

-- A quiet action that gives few jobs, and something behind it that takes up only these.
listed_first :
    (limit at : ℕ) (m : Db Tables (List WorkerLeasedJob)) (f : List WorkerLeasedJob → Db Tables ℕ)
    → Quiet m
    → Ensures (λ jobs _. length jobs ≤ limit) m
    → ((jobs : List WorkerLeasedJob) → Moves (Within (TakenUp at jobs)) (f jobs))
    → (s : Session Tables) → TakesAtMost limit at s.tables ((m >>= f) s).1.tables
unfolding ◌>>=◌
listed_first limit at m f quiet few takes s = go (m s) refl
  where
    nothing : TakesAtMost limit at s.tables s.tables
    nothing = record {
      jobs = [];
      few = omega arith;
      rows = Pairwise-refl (TakenUp at []) (λ r. left) s.tables.content_jobs;
    }

    go :
        (r : Result (List WorkerLeasedJob) × Session Tables)
        → m s ≡ r
        → TakesAtMost limit at s.tables ((m >>= f) s).1.tables
    go (ok jobs, s') e =
        let kept : s.tables ≡ s'.tables = rw e at (quiet.at s) in
        rw e (record {
          jobs = jobs;
          few = few.at s jobs (ap (λ r. r.0) e);
          rows =
              subst
                (λ t. Pairwise (TakenUp at jobs) t.content_jobs (f jobs s').1.tables.content_jobs)
                (sym kept) ((takes jobs).at s');
        })
    go (thrown x, s') e =
        let kept : s.tables ≡ s'.tables = rw e at (quiet.at s) in
        rw e (subst (TakesAtMost limit at s.tables) kept nothing)
    go (crashed, s') e =
        let kept : s.tables ≡ s'.tables = rw e at (quiet.at s) in
        rw e (subst (TakesAtMost limit at s.tables) kept nothing)

-- the number, if there is one, is at most the limit
abbrev pub CountsAtMost : ℕ → Result ℕ → Type 0
CountsAtMost limit (ok n) = n ≤ limit
CountsAtMost limit (thrown e) = Unit
CountsAtMost limit crashed = Unit

counts : (limit : ℕ) (r : Result ℕ) → ((n : ℕ) → r ≡ ok n → n ≤ limit) → CountsAtMost limit r
counts limit (ok n) h = h n refl
counts limit (thrown e) h = tt
counts limit crashed h = tt

-- There are jobs, at most as many as the limit of a run of the recovery says, such that every row
-- that the run changes was stale at its start and has the tenant and the id of one of them, and is
-- stale no more; and the number that the run reports is at most the limit.
pub run_once_bounded :
    (x : Externals) (config : RecoveryConfig) (limit : ℕ) (s : Session Tables)
    → TakesAtMost limit (s.clock s.read) s.tables (run_once x config limit s).1.tables
      × CountsAtMost limit (run_once x config limit s).0
unfolding run_once now ◌>>=◌
run_once_bounded x config limit s =
    let at = s.clock s.read in
    let later = record s { read = s.read + 1 } in
    (
      listed_first limit at (list_stale_processing_jobs x at limit) (recover_all x config at 0)
          (Quiet-list_stale x at limit) (list_stale-length x at limit)
          (λ jobs. recover_all-TakenUp x config at jobs 0 jobs (members jobs)) later,
      counts limit _ (λ n. (run_once-Ensures x config limit).at s n),
    )
