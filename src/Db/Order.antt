-- ===== src/Db/Order.antt =====
-- What ORDER BY and LIMIT keep, and that the first row of an ordered list is a least one.
use roam_content_engine.Prelude.{
  sym, ap, subst, ◌∙◌, ℕ, zero, suc, Bool, true, Option, none, some, List, [], ◌∷◌, ◌≡◌, inl, inr,
  Bool-cases, All, select, take, head?, Memᴰ, false, refl,
}
use mathlib.Core.List.Memᴰ.{head, tail}
use roam_content_engine.Db.{returning, insert_by, order_by, find_first}

module _ {ℓ} {R : Type ℓ} where
  pub All-select : (p : R → Bool) (xs : List R) → All (λ x. p x ≡ true) (select p xs)
  All-select p [] = tt
  All-select p (x ∷ xs) = elim (Bool-cases (p x)) [
    | inl e ↦ rw e (e, All-select p xs)
    | inr e ↦ rw e (All-select p xs)
  ]

-- what holds of the row, if there is one
abbrev pub OnSome {ℓ κ} : {R : Type ℓ} → (R → Type κ) → Option R → Type κ
OnSome P none = Unit
OnSome P (some x) = P x

pub OnSome-map {ℓ κ μ} :
    {R : Type ℓ} (P : R → Type κ) (Q : R → Type μ)
    → ((x : R) → P x → Q x)
    → (o : Option R) → OnSome P o
    → OnSome Q o
OnSome-map P Q f none h = tt
OnSome-map P Q f (some x) h = f x h

module _ {ℓ κ} {R : Type ℓ} (P : R → Type κ) where
  module _ (before : R → R → Bool) where
    All-insert_by : (r : R) (xs : List R) → P r → All P xs → All P (insert_by before r xs)
    unfolding insert_by
    All-insert_by r [] p h = (p, tt)
    All-insert_by r (x ∷ xs) p h = elim (Bool-cases (before x r)) [
      | inl e ↦ rw e (h.0, All-insert_by r xs p h.1)
      | inr e ↦ rw e (p, h)
    ]

    pub All-order_by : (xs : List R) → All P xs → All P (order_by before xs)
    unfolding order_by
    All-order_by [] h = tt
    All-order_by (x ∷ xs) h = All-insert_by x (order_by before xs) h.0 (All-order_by xs h.1)

  pub All-take : (n : ℕ) (xs : List R) → All P xs → All P (take n xs)
  All-take zero xs h = tt
  All-take (suc n) [] h = tt
  All-take (suc n) (x ∷ xs) h = (h.0, All-take n xs h.1)

  pub OnSome-head? : (xs : List R) → All P xs → OnSome P (head? xs)
  OnSome-head? [] h = tt
  OnSome-head? (x ∷ xs) h = h.0

-- SELECT … WHERE … ORDER BY … LIMIT 1 finds a row that meets the condition.
pub OnSome-first {ℓ} :
    {R : Type ℓ} (p : R → Bool) (before : R → R → Bool) (xs : List R)
    → OnSome (λ x. p x ≡ true) (head? (order_by before (select p xs)))
OnSome-first p before xs = OnSome-head? _ _ (All-order_by _ before (select p xs) (All-select p xs))

pub OnSome-find_first {ℓ} :
    {R : Type ℓ} (p : R → Bool) (xs : List R) → OnSome (λ x. p x ≡ true) (find_first p xs)
unfolding find_first
OnSome-find_first p [] = tt
OnSome-find_first p (x ∷ xs) = elim (Bool-cases (p x)) [
  | inl e ↦ rw e e
  | inr e ↦ rw e (OnSome-find_first p xs)
]

-- The row that SELECT … WHERE p … ORDER BY … LIMIT 1 is to find: one of the table that meets the
-- condition and comes before all that do, or none if none does.
abbrev pub First : {R : Type 0} → (R → Bool) → (R → R → Bool) → List R → Option R → Type 0
First p before xs none = All (λ x. p x ≡ false) xs
First p before xs (some k) = (p k ≡ true) × Memᴰ k xs × All (λ x. p x ≡ true → before k x ≡ true) xs

module _ {R : Type 0} (p : R → Bool) (before : R → R → Bool) where
  First-skip :
      (x : R) (xs : List R) (o : Option R)
      → p x ≡ false
      → First p before xs o
      → First p before (x ∷ xs) o
  First-skip x xs none e h = (e, h)
  First-skip x xs (some k) e h = (h.0, tail h.1, (λ t. cc, h.2))

  module _ (same : (x : R) → before x x ≡ true)
      (total : (x y : R) → before x y ≡ false → before y x ≡ true)
      (trans : (x y z : R) → before x y ≡ true → before y z ≡ true → before x z ≡ true) where
    All-none_before :
        (x : R) (xs : List R)
        → All (λ y. p y ≡ false) xs
        → All (λ y. p y ≡ true → before x y ≡ true) xs
    All-none_before x [] h = tt
    All-none_before x (y ∷ ys) h = (λ t. let f = h.0 in cc, All-none_before x ys h.1)

    All-before :
        (x k : R) (xs : List R)
        → before x k ≡ true
        → All (λ y. p y ≡ true → before k y ≡ true) xs
        → All (λ y. p y ≡ true → before x y ≡ true) xs
    All-before x k [] e h = tt
    All-before x k (y ∷ ys) e h = (λ t. trans x k y e (h.0 t), All-before x k ys e h.1)

    First-insert_by :
        (x : R) (xs ys : List R)
        → p x ≡ true
        → First p before xs (head? ys)
        → First p before (x ∷ xs) (head? (insert_by before x ys))
    unfolding insert_by
    First-insert_by x xs [] e h = (e, head refl, (λ t. same x, All-none_before x xs h))
    First-insert_by x xs (k ∷ ys) e h = elim (Bool-cases (before k x)) [
      | inl b ↦ rw b (h.0, tail h.1, (λ t. b, h.2))
      | inr b ↦ rw b (e, head refl, (λ t. same x, All-before x k xs (total k x b) h.2))
    ]

    pub order_by-First : (xs : List R) → First p before xs (head? (order_by before (select p xs)))
    unfolding order_by
    order_by-First [] = tt
    order_by-First (x ∷ xs) = elim (Bool-cases (p x)) [
      | inl e ↦ rw e (First-insert_by x xs (order_by before (select p xs)) e (order_by-First xs))
      | inr e ↦ rw e (First-skip x xs (head? (order_by before (select p xs))) e (order_by-First xs))
    ]

-- An UPDATE whose condition some row of the table meets returns a row that meets it.
pub returning-row {ℓ} :
    {R : Type ℓ} (cond : R → Bool) (set : R → R) (k : R) (rs : List R)
    → Memᴰ k rs
    → cond k ≡ true
    → (u : R) × Memᴰ u rs × (cond u ≡ true) × (head? (returning cond set rs) ≡ some (set u))
unfolding returning
returning-row cond set k [] m h = elim m [ ]
returning-row cond set k (r ∷ rs) m h = elim (Bool-cases (cond r)) [
  | inl e ↦ (r, head refl, e, rw e refl)
  | inr e ↦ elim m [
    | head same ↦
        let clash : true ≡ false = sym h ∙ ap cond same ∙ e in absurd (let no = clash in cc)
    | tail later ↦
        let (u, there, fits, found) = returning-row cond set k rs later h in
        (u, tail there, fits, rw (e, found) refl)
  ]
]

pub returning-some {ℓ} :
    {R : Type ℓ} (cond : R → Bool) (set : R → R) (k : R) (rs : List R)
    → Memᴰ k rs
    → cond k ≡ true
    → (u : R) × (head? (returning cond set rs) ≡ some (set u))
returning-some cond set k rs m h =
    let (u, _, _, found) = returning-row cond set k rs m h in (u, found)

-- A row that SELECT … LIMIT 1 finds is in the table.
pub find_first-Mem {ℓ} :
    {R : Type ℓ} (p : R → Bool) (k : R) (rs : List R) → find_first p rs ≡ some k → Memᴰ k rs
unfolding find_first
find_first-Mem p k [] e = cc
find_first-Mem p k (r ∷ rs) e = elim (Bool-cases (p r)) [
  | inl c ↦ head (let found : some r ≡ some k = rw c at e in cc)
  | inr c ↦ tail (find_first-Mem p k rs (rw c at e))
]

-- what holds of all holds of one
pub All-at {ℓ κ} : {R : Type ℓ} (P : R → Type κ) (k : R) (xs : List R) → All P xs → Memᴰ k xs → P k
All-at P k [] h m = elim m [ ]
All-at P k (x ∷ xs) h (head e) = subst P (sym e) h.0
All-at P k (x ∷ xs) h (tail m) = All-at P k xs h.1 m
