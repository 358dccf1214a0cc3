-- ===== src/Db/Extends.antt =====
-- A table that may have grown: its old rows one step further each, and new rows behind them.
use roam_content_engine.Prelude.{List, [], ◌∷◌, ◌++◌, All, Pairwise, pairwise_done, pairwise_more}

module _ {R : Type 0} (ρ : R → R → Type 0) (N : R → Type 0) where
  pub data Extends : List R → List R → Type 0 where
    added : {ys : List R} → All N ys → Extends [] ys
    moved : {x y : R} {xs ys : List R} → ρ x y → Extends xs ys → Extends (x ∷ xs) (y ∷ ys)

  pub Extends-Pairwise : {xs ys : List R} → Pairwise ρ xs ys → Extends xs ys
  Extends-Pairwise pairwise_done = added tt
  Extends-Pairwise (pairwise_more h p) = moved h (Extends-Pairwise p)

  -- the old rows as they are, and one behind them
  pub Extends-append : ((r : R) → ρ r r) → (r : R) → N r → (xs : List R) → Extends xs (xs ++ r ∷ [])
  Extends-append same r n [] = added (n, tt)
  Extends-append same r n (x ∷ xs) = moved (same x) (Extends-append same r n xs)

  pub Extends-refl : ((r : R) → ρ r r) → (xs : List R) → Extends xs xs
  Extends-refl same [] = added tt
  Extends-refl same (x ∷ xs) = moved (same x) (Extends-refl same xs)

  module _ (keep : (x y : R) → ρ x y → N x → N y) where
    All-Extends_new : {xs ys : List R} → Extends xs ys → All N xs → All N ys
    All-Extends_new (added n) h = n
    All-Extends_new (moved s e) h = (keep _ _ s h.0, All-Extends_new e h.1)

    pub Extends-trans :
        ((x y z : R) → ρ x y → ρ y z → ρ x z)
        → {xs ys zs : List R} → Extends xs ys
        → Extends ys zs
        → Extends xs zs
    Extends-trans comp (added n) f = added (All-Extends_new f n)
    Extends-trans comp (moved s e) (moved t f) = moved (comp _ _ _ s t) (Extends-trans comp e f)

pub All-map :
    {R : Type 0} (N M : R → Type 0) → ((x : R) → N x → M x) → (xs : List R) → All N xs → All M xs
All-map N M g [] h = tt
All-map N M g (x ∷ xs) h = (g x h.0, All-map N M g xs h.1)

pub Extends-map :
    {R : Type 0} (ρ σ : R → R → Type 0) (N M : R → Type 0)
    → ((x y : R) → ρ x y → σ x y)
    → ((x : R) → N x → M x)
    → {xs ys : List R} → Extends ρ N xs ys
    → Extends σ M xs ys
Extends-map ρ σ N M f g (added {ys} n) = added (All-map N M g ys n)
Extends-map ρ σ N M f g (moved s e) = moved (f _ _ s) (Extends-map ρ σ N M f g e)

-- what each step keeps and new rows have, all rows keep
pub All-Extends :
    {R : Type 0} (P N : R → Type 0) (ρ : R → R → Type 0)
    → ((x y : R) → ρ x y → P x → P y)
    → ((x : R) → N x → P x)
    → {xs ys : List R} → Extends ρ N xs ys
    → All P xs
    → All P ys
All-Extends P N ρ f g (added {ys} n) h = All-map N P g ys n
All-Extends P N ρ f g (moved s e) h = (f _ _ s h.0, All-Extends P N ρ f g e h.1)
