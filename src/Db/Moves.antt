-- ===== src/Db/Moves.antt =====
-- What an action of a session can do to the tables: `Moves R m` says that the tables before and
-- after `m` are related by `R`, whether `m` returns or throws. One rule for each way to build an
-- action; the relation of a chain is composed from those of its parts.
use roam_content_engine.Prelude.{
  String, Bool, Option, none, some, List, [], ◌∷◌, ◌≡◌, refl, inl, inr, Bool-cases, trim, is_empty,
}
use roam_content_engine.Errors.{Thrown}
use roam_content_engine.Db.{
  Result, ok, thrown, crashed, Session, Db, catching, pure, throw, statement, query, rolled_back,
  ◌>>=◌, continue, settle, handle, translating, transaction, ensure_non_empty, draw,
}

pub record Moves {ℓ κ} {T : Type 0} {A : Type ℓ} (R : T → T → Type κ) (m : Db T A) : Type κ where
  pub at : (s : Session T) → R s.tables (m s).1.tables

-- An action that leaves the tables alone.
abbrev pub Quiet {ℓ} : {T : Type 0} {A : Type ℓ} → Db T A → Type 0
Quiet m = Moves ◌≡◌ m

module _ {ℓ} {T : Type 0} {A : Type ℓ} where
  pub Quiet-pure : (a : A) → Quiet {T = T} (pure a)
  unfolding pure
  Quiet-pure a = record { at = λ s. refl }

  pub Quiet-throw : (e : Thrown) → Quiet {T = T} {A = A} (throw e)
  unfolding throw
  Quiet-throw e = record { at = λ s. refl }

  query_at : (f : T → (String → Bool) → A) (s : Session T) → s.tables ≡ (query f s).1.tables
  unfolding query
  query_at f s = go s.faults refl
    where
      go : (l : List (Option Thrown)) → s.faults ≡ l → s.tables ≡ (query f s).1.tables
      go [] e = rw (e, query)
      go (none ∷ l) e = rw (e, query)
      go (some x ∷ l) e = rw (e, query)

  pub Quiet-query : (f : T → (String → Bool) → A) → Quiet (query f)
  Quiet-query f = record { at = query_at f }

module _ {ℓ κ} {T : Type 0} {A : Type ℓ} (R : T → T → Type κ) (same : (t : T) → R t t) where
  pub Moves-Quiet : (m : Db T A) → Quiet m → Moves R m
  Moves-Quiet m q = record { at = λ s. rw (← q.at s) (same s.tables) }

  pub Moves-statement : (f : T → A × T) → ((t : T) → R t (f t).1) → Moves R (statement f)
  unfolding statement
  Moves-statement f h = record { at = λ s. go s s.faults refl }
    where
      go :
          (s : Session T) (l : List (Option Thrown))
          → s.faults ≡ l
          → R s.tables (statement f s).1.tables
      go s [] e = rw (e, statement) (h s.tables)
      go s (none ∷ l) e = rw (e, statement) (h s.tables)
      go s (some x ∷ l) e = rw (e, statement) (same s.tables)

  settle_at : (t : T) (x : Result A × Session T) → R t x.1.tables → R t (settle t x).1.tables
  settle_at t (ok a, s) h = h
  settle_at t (thrown e, s) h = same t
  settle_at t (crashed, s) h = same t

  pub Moves-rolled_back : (m : Db T A) → Moves R m → Moves R (rolled_back m)
  unfolding rolled_back
  Moves-rolled_back m k = record { at = λ s. settle_at s.tables (m s) (k.at s) }

-- The tables after a chain, by the relations of its parts.
module _ {ℓ κ μ ν ξ} {T : Type 0} {A : Type ℓ} {B : Type κ} where
  continue_at :
      (R : T → T → Type μ) (S : T → T → Type ν) (Q : T → T → Type ξ)
      (stop : (x y : T) → R x y → Q x y) (go_on : (x y z : T) → R x y → S y z → Q x z)
      (f : A → Db T B) (keep : (a : A) → Moves S (f a)) (t : T) (x : Result A × Session T)
      → R t x.1.tables
      → Q t (continue f x).1.tables
  continue_at R S Q stop go_on f keep t (ok a, s) h =
      go_on t s.tables (f a s).1.tables h ((keep a).at s)
  continue_at R S Q stop go_on f keep t (thrown e, s) h = stop t s.tables h
  continue_at R S Q stop go_on f keep t (crashed, s) h = stop t s.tables h

  pub Moves-bind :
      (R : T → T → Type μ) (S : T → T → Type ν) (Q : T → T → Type ξ)
      (stop : (x y : T) → R x y → Q x y) (go_on : (x y z : T) → R x y → S y z → Q x z) (m : Db T A)
      (f : A → Db T B)
      → Moves R m
      → ((a : A) → Moves S (f a))
      → Moves Q (m >>= f)
  unfolding ◌>>=◌
  Moves-bind R S Q stop go_on m f k keep = record {
    at = λ s. continue_at R S Q stop go_on f keep s.tables (m s) (k.at s);
  }

module _ {ℓ κ μ} {T : Type 0} {A : Type ℓ} {B : Type κ} (R : T → T → Type μ) where
  -- first something that leaves the tables alone
  pub Moves-after :
      (same : (t : T) → R t t) (m : Db T A) (f : A → Db T B)
      → Quiet m
      → ((a : A) → Moves R (f a))
      → Moves R (m >>= f)
  Moves-after same m f q keep =
      Moves-bind ◌≡◌ R R (λ x y e. rw (← e) (same x)) (λ x y z e r. rw e r) m f q keep

  -- then nothing that changes them
  pub Moves-before :
      (m : Db T A) (f : A → Db T B) → Moves R m → ((a : A) → Quiet (f a)) → Moves R (m >>= f)
  Moves-before m f k q = Moves-bind R ◌≡◌ R (λ x y r. r) (λ x y z r e. rw (← e) r) m f k q

module _ {ℓ κ} {T : Type 0} {A : Type ℓ} {B : Type κ} where
  pub Quiet-bind :
      (m : Db T A) (f : A → Db T B) → Quiet m → ((a : A) → Quiet (f a)) → Quiet (m >>= f)
  Quiet-bind = Moves-after ◌≡◌ (λ t. refl)

module _ {ℓ κ} {T : Type 0} {A : Type ℓ} (R : T → T → Type κ) (same : (t : T) → R t t) where
  handle_at :
      (t : T) (x : Result A × Session T) (h : Thrown → Thrown)
      → R t x.1.tables
      → R t (handle (λ e. throw (h e)) x).1.tables
  unfolding throw
  handle_at t (ok a, s) h r = r
  handle_at t (thrown e, s) h r = r
  handle_at t (crashed, s) h r = r

  pub Moves-translating :
      (message : String) (m : Db T A) → Moves R m → Moves R (translating message m)
  unfolding translating catching
  Moves-translating message m k = record { at = λ s. handle_at s.tables (m s) _ (k.at s) }

  pub Moves-transaction : (m : Db T A) → Moves R m → Moves R (transaction m)
  unfolding transaction
  Moves-transaction m k = Moves-after R same _ _ (Quiet-query _) (λ _.
      Moves-rolled_back R same _
        (Moves-before R m _ k (λ a. Quiet-bind _ _ (Quiet-query _) (λ _. Quiet-pure a))))

  pub Moves-ensure :
      (value field : String) (f : String → Db T A)
      → Moves R (f (trim value))
      → Moves R (ensure_non_empty value field >>= f)
  unfolding ensure_non_empty ◌>>=◌ throw pure
  Moves-ensure value field f k = record {
    at = λ s. elim (Bool-cases (is_empty (trim value))) [
      | inl e ↦ rw e (same s.tables)
      | inr e ↦ rw e (k.at s)
    ];
  }

pub Quiet-draw : {T : Type 0} → Quiet {T = T} draw
unfolding draw
Quiet-draw = record { at = λ s. refl }

module _ {ℓ κ μ} {T : Type 0} {A : Type ℓ} {B : Type κ} (R : T → T → Type μ) where
  -- What follows a query may use that its argument is the query's answer.
  pub Moves-query :
      (same : (t : T) → R t t) (f : T → (String → Bool) → A) (k : A → Db T B)
      → ((t : T) (locked : String → Bool) → Moves R (k (f t locked)))
      → Moves R (query f >>= k)
  unfolding query ◌>>=◌
  Moves-query same f k keep = record { at = λ s. go s s.faults refl }
    where
      go :
          (s : Session T) (l : List (Option Thrown))
          → s.faults ≡ l
          → R s.tables ((query f >>= k) s).1.tables
      go s [] e = simp (e, query) ((keep s.tables s.locked).at s)
      go s (none ∷ l) e = simp (e, query) ((keep s.tables s.locked).at (record s { faults = l }))
      go s (some x ∷ l) e = simp (e, query) (same s.tables)

-- A caught failure goes on with the handler.
module _ {ℓ κ} {T : Type 0} {A : Type ℓ} (R : T → T → Type κ)
    (comp : (x y z : T) → R x y → R y z → R x z) where
  caught_at :
      (h : Thrown → Db T A)
      → ((e : Thrown) → Moves R (h e))
      → (t : T) (x : Result A × Session T) → R t x.1.tables
      → R t (handle h x).1.tables
  caught_at h k t (ok a, s) r = r
  caught_at h k t (thrown e, s) r = comp t s.tables (h e s).1.tables r ((k e).at s)
  caught_at h k t (crashed, s) r = r

  pub Moves-catching :
      (m : Db T A) (h : Thrown → Db T A)
      → Moves R m
      → ((e : Thrown) → Moves R (h e))
      → Moves R (catching m h)
  unfolding catching
  Moves-catching m h p k = record { at = λ s. caught_at h k s.tables (m s) (p.at s) }
