-- ===== src/Db/Rows.antt =====
-- One table among the tables of a session: UPDATE on it, and what an UPDATE does row by row.
use roam_content_engine.Prelude.{
  Bool, true, Option, List, [], ◌∷◌, ◌≡◌, refl, ◌∙◌, inl, inr, Bool-cases, head?, All, Pairwise,
  pairwise_done, pairwise_more,
}
use roam_content_engine.Db.{Db, ◌>>=◌, pure, statement, update_where, returning}
use roam_content_engine.Db.Moves.{Moves, Moves-bind, Moves-statement, Moves-Quiet, Quiet-pure}

-- where the rows of a table stand
pub record Table (T R : Type 0) : Type 0 where
  pub rows : T → List R
  pub put : List R → T → T
  pub rows_put : (rs : List R) (t : T) → rows (put rs t) ≡ rs

-- UPDATE … SET … WHERE … RETURNING *, of which the code reads the first row
abbrev pub update_rows : {T R : Type 0} → Table T R → (R → Bool) → (R → R) → Db T (Option R)
update_rows table cond set = statement λ t.
    (head? (returning cond set (table.rows t)), table.put (update_where cond set (table.rows t)) t)

module _ {R : Type 0} where
  pub Pairwise-map {κ μ} :
      (ρ : R → R → Type κ) (σ : R → R → Type μ)
      → ((x y : R) → ρ x y → σ x y)
      → {xs ys : List R} → Pairwise ρ xs ys
      → Pairwise σ xs ys
  Pairwise-map ρ σ f pairwise_done = pairwise_done
  Pairwise-map ρ σ f (pairwise_more h p) = pairwise_more (f _ _ h) (Pairwise-map ρ σ f p)

  -- what each row keeps, all rows keep
  pub All-Pairwise {κ μ} :
      (P : R → Type κ) (ρ : R → R → Type μ)
      → ((x y : R) → ρ x y → P x → P y)
      → {xs ys : List R} → Pairwise ρ xs ys
      → All P xs
      → All P ys
  All-Pairwise P ρ f pairwise_done h = tt
  All-Pairwise P ρ f (pairwise_more r p) h = (f _ _ r h.0, All-Pairwise P ρ f p h.1)

  module _ {κ} (ρ : R → R → Type κ) where
    pub Pairwise-refl : ((r : R) → ρ r r) → (rs : List R) → Pairwise ρ rs rs
    Pairwise-refl same [] = pairwise_done
    Pairwise-refl same (r ∷ rs) = pairwise_more (same r) (Pairwise-refl same rs)

    pub Pairwise-trans :
        ((x y z : R) → ρ x y → ρ y z → ρ x z)
        → {xs ys zs : List R} → Pairwise ρ xs ys
        → Pairwise ρ ys zs
        → Pairwise ρ xs zs
    Pairwise-trans comp pairwise_done q = q
    Pairwise-trans comp (pairwise_more h p) (pairwise_more k q) =
        pairwise_more (comp _ _ _ h k) (Pairwise-trans comp p q)

    pub Pairwise-update_where :
        ((r : R) → ρ r r)
        → (cond : R → Bool) (set : R → R) → ((r : R) → cond r ≡ true → ρ r (set r))
        → (rs : List R) → Pairwise ρ rs (update_where cond set rs)
    unfolding update_where
    Pairwise-update_where same cond set step [] = pairwise_done
    Pairwise-update_where same cond set step (r ∷ rs) = elim (Bool-cases (cond r)) [
      | inl e ↦ rw e (pairwise_more (step r e) (Pairwise-update_where same cond set step rs))
      | inr e ↦ rw e (pairwise_more (same r) (Pairwise-update_where same cond set step rs))
    ]

module _ {T R : Type 0} (table : Table T R) where
  -- Row by row, in place, between the tables before and after; other tables do not matter.
  abbrev pub Rows {κ} : (R → R → Type κ) → T → T → Type κ
  Rows ρ t t' = Pairwise ρ (table.rows t) (table.rows t')

  -- Only other tables may differ.
  abbrev pub SameRows : T → T → Type 0
  SameRows t t' = table.rows t ≡ table.rows t'

  pub SameRows-then {ℓ κ} :
      {A : Type ℓ} {B : Type κ} (m : Db T A) (f : A → Db T B)
      → Moves SameRows m
      → ((a : A) → Moves SameRows (f a))
      → Moves SameRows (m >>= f)
  SameRows-then m f = Moves-bind SameRows SameRows SameRows (λ x y e. e) (λ x y z p q. p ∙ q) m f

  pub SameRows-pure {ℓ} : {A : Type ℓ} (a : A) → Moves SameRows (pure a)
  SameRows-pure a = Moves-Quiet SameRows (λ t. refl) _ (Quiet-pure a)

  module _ {κ} (ρ : R → R → Type κ) (same : (r : R) → ρ r r) where
    pub Moves-update_rows :
        (cond : R → Bool) (set : R → R)
        → ((r : R) → cond r ≡ true → ρ r (set r))
        → Moves (Rows ρ) (update_rows table cond set)
    Moves-update_rows cond set step =
        Moves-statement (Rows ρ) (λ t. Pairwise-refl ρ same (table.rows t)) _
          (λ t.
            rw (table.rows_put (update_where cond set (table.rows t)) t)
              (Pairwise-update_where ρ same cond set step (table.rows t)))

    -- An UPDATE, and something behind it that leaves the table alone.
    pub Moves-update_then {ℓ} :
        {A : Type ℓ} (cond : R → Bool) (set : R → R) (f : Option R → Db T A)
        → ((r : R) → cond r ≡ true → ρ r (set r))
        → ((o : Option R) → Moves SameRows (f o))
        → Moves (Rows ρ) (update_rows table cond set >>= f)
    Moves-update_then cond set f step =
        Moves-bind (Rows ρ) SameRows (Rows ρ) (λ x y r. r) (λ x y z r e. rw (← e) r) _ _
          (Moves-update_rows cond set step)
