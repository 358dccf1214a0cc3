-- ===== src/Db/Found.antt =====
-- What a table holds behind an UPDATE that returned a row.
use mathlib.Core.List.Memᴰ.{head, tail}
use roam_content_engine.Prelude.{
  Bool, true, Option, none, some, List, [], ◌∷◌, ◌≡◌, refl, inl, inr, Bool-cases, any, head?,
  is_some, Memᴰ,
}
use roam_content_engine.Db.{update_where, returning}
use roam_content_engine.Db.Order.{OnSome}
use roam_content_engine.Db.Ensures.{Ensures, Ensures-statement}
use roam_content_engine.Db.Rows.{Table, update_rows}

module _ {R : Type 0} where
  any_later : (p : R → Bool) (r : R) (rs : List R) → any p rs ≡ true → any p (r ∷ rs) ≡ true
  any_later p r rs e = elim (Bool-cases (p r)) [ inl c ↦ rw c refl | inr c ↦ rw c e ]

  any_updated :
      (p cond : R → Bool) (set : R → R)
      → ((r : R) → cond r ≡ true → p (set r) ≡ true)
      → (rs : List R) → is_some (head? (returning cond set rs)) ≡ true
      → any p (update_where cond set rs) ≡ true
  unfolding update_where returning
  any_updated p cond set h [] e = cc
  any_updated p cond set h (r ∷ rs) e = elim (Bool-cases (cond r)) [
    | inl c ↦ rw (c, h r c) refl
    | inr c ↦ rw c (any_later p r _ (any_updated p cond set h rs (rw c at e)))
  ]

  module _ (P : R → Type 0) (cond : R → Bool) (set : R → R) (h : (r : R) → P (set r)) where
    later :
        (x : R) (xs : List R) (o : Option R)
        → OnSome (λ u. Memᴰ u xs × P u) o
        → OnSome (λ u. Memᴰ u (x ∷ xs) × P u) o
    later x xs none k = tt
    later x xs (some u) k = (tail k.0, k.1)

    pub returned :
        (rs : List R)
        → OnSome (λ u. Memᴰ u (update_where cond set rs) × P u) (head? (returning cond set rs))
    unfolding update_where returning
    returned [] = tt
    returned (r ∷ rs) = elim (Bool-cases (cond r)) [
      | inl c ↦ rw c (head refl, h r)
      | inr c ↦
          rw c (later r (update_where cond set rs) (head? (returning cond set rs)) (returned rs))
    ]

module _ {T R : Type 0} (table : Table T R) where
  -- there is a row that passes the test
  abbrev pub Has : (R → Bool) → T → Type 0
  Has p t = any p (table.rows t) ≡ true

  -- … if anything was returned
  abbrev pub HasIf {ℓ} : {A : Type ℓ} → (R → Bool) → Option A → T → Type 0
  HasIf p o t = is_some o ≡ true → Has p t

  pub update_rows-HasIf :
      (p cond : R → Bool) (set : R → R)
      → ((r : R) → cond r ≡ true → p (set r) ≡ true)
      → Ensures (HasIf p) (update_rows table cond set)
  update_rows-HasIf p cond set h = Ensures-statement (HasIf p) _ (λ t.
      rw (table.rows_put (update_where cond set (table.rows t)) t)
        (any_updated p cond set h (table.rows t)))
