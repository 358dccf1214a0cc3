-- ===== src/Db/Ensures.antt =====
-- What holds of the tables when an action returns: `Ensures Q m` says that `Q a t` holds of every
-- value `a` that `m` returns and the tables `t` that it leaves. Nothing is said of a throw.
use roam_content_engine.Prelude.{String, Bool, Option, none, some, List, [], ◌∷◌, ◌≡◌, refl, subst}
use roam_content_engine.Errors.{Thrown}
use roam_content_engine.Db.{
  Result, ok, thrown, crashed, Session, Db, pure, throw, statement, query, catching, ◌>>=◌,
  continue, handle, translating, transaction, rolled_back, settle,
}
use roam_content_engine.Db.Moves.{Moves, Quiet-bind, Quiet-query, Quiet-pure}

pub record Ensures {ℓ κ} {T : Type 0} {A : Type ℓ} (Q : A → T → Type κ) (m : Db T A)
    : Type (ℓ ⊔ κ) where
  pub at : (s : Session T) (a : A) → (m s).0 ≡ ok a → Q a (m s).1.tables

ok_value {ℓ} : {A : Type ℓ} → A → Result A → A
ok_value d (ok a) = a
ok_value d (thrown e) = d
ok_value d crashed = d

ok_injective {ℓ} : {A : Type ℓ} {a b : A} → ok a ≡ ok b → a ≡ b
unfolding ok_value
ok_injective {a} e = λ i. ok_value a (e i)

module _ {ℓ κ} {T : Type 0} {A : Type ℓ} (Q : A → T → Type κ) where
  pub Ensures-pure : (a : A) → ((t : T) → Q a t) → Ensures Q (pure a)
  unfolding pure
  Ensures-pure a h = record {
    at = λ s b e. subst (λ x. Q x s.tables) (ok_injective e) (h s.tables);
  }

  pub Ensures-throw : (e : Thrown) → Ensures Q (throw e)
  unfolding throw
  Ensures-throw e = record { at = λ s b eq. cc }

  pub Ensures-statement : (f : T → A × T) → ((t : T) → Q (f t).0 (f t).1) → Ensures Q (statement f)
  unfolding statement
  Ensures-statement f h = record { at = λ s. go s s.faults refl }
    where
      go :
          (s : Session T) (l : List (Option Thrown))
          → s.faults ≡ l
          → (a : A) → (statement f s).0 ≡ ok a
          → Q a (statement f s).1.tables
      go s [] e a v = rw e (subst (λ x. Q x (f s.tables).1) (ok_injective (rw e at v)) (h s.tables))
      go s (none ∷ l) e a v =
          rw e (subst (λ x. Q x (f s.tables).1) (ok_injective (rw e at v)) (h s.tables))
      go s (some x ∷ l) e a v = let w = rw e at v in cc

  pub Ensures-query :
      (f : T → (String → Bool) → A)
      → ((t : T) (locked : String → Bool) → Q (f t locked) t)
      → Ensures Q (query f)
  unfolding query
  Ensures-query f h = record { at = λ s. go s s.faults refl }
    where
      go :
          (s : Session T) (l : List (Option Thrown))
          → s.faults ≡ l
          → (a : A) → (query f s).0 ≡ ok a
          → Q a (query f s).1.tables
      go s [] e a v =
          rw e (subst (λ x. Q x s.tables) (ok_injective (rw e at v)) (h s.tables s.locked))
      go s (none ∷ l) e a v =
          rw e (subst (λ x. Q x s.tables) (ok_injective (rw e at v)) (h s.tables s.locked))
      go s (some x ∷ l) e a v = let w = rw e at v in cc

  pub Ensures-map :
      (P : A → T → Type κ)
      → ((a : A) (t : T) → P a t → Q a t)
      → (m : Db T A) → Ensures P m
      → Ensures Q m
  Ensures-map P f m k = record { at = λ s a e. f a _ (k.at s a e) }

  handle_ensures :
      (h : Thrown → Db T A)
      → ((e : Thrown) → Ensures Q (h e))
      → (x : Result A × Session T) → ((a : A) → x.0 ≡ ok a → Q a x.1.tables)
      → (a : A) → (handle h x).0 ≡ ok a
      → Q a (handle h x).1.tables
  handle_ensures h k (ok b, s) f a e = f a e
  handle_ensures h k (thrown x, s) f a e = (k x).at s a e
  handle_ensures h k (crashed, s) f a e = f a e

  pub Ensures-catching :
      (m : Db T A) (h : Thrown → Db T A)
      → Ensures Q m
      → ((e : Thrown) → Ensures Q (h e))
      → Ensures Q (catching m h)
  unfolding catching
  Ensures-catching m h k l = record { at = λ s. handle_ensures h l (m s) (k.at s) }

  pub Ensures-translating :
      (message : String) (m : Db T A) → Ensures Q m → Ensures Q (translating message m)
  unfolding translating
  Ensures-translating message m k = Ensures-catching m _ k (λ e. Ensures-throw _)

module _ {ℓ κ μ} {T : Type 0} {A : Type ℓ} {B : Type κ} (Q : B → T → Type μ) where
  continue_ensures :
      (P : A → Type 0) (f : A → Db T B)
      → ((a : A) → P a → Ensures Q (f a))
      → (x : Result A × Session T) → ((a : A) → x.0 ≡ ok a → P a)
      → (b : B) → (continue f x).0 ≡ ok b
      → Q b (continue f x).1.tables
  continue_ensures P f k (ok a, s) h b e = (k a (h a refl)).at s b e
  continue_ensures P f k (thrown x, s) h b e = cc
  continue_ensures P f k (crashed, s) h b e = cc

  -- What a chain ensures is what its last action ensures; the first may be known to return only
  -- values of one kind.
  pub Ensures-bind_where :
      (P : A → Type 0) (m : Db T A) (f : A → Db T B)
      → Ensures (λ a _. P a) m
      → ((a : A) → P a → Ensures Q (f a))
      → Ensures Q (m >>= f)
  unfolding ◌>>=◌
  Ensures-bind_where P m f p k = record { at = λ s. continue_ensures P f k (m s) (p.at s) }

  pub Ensures-bind :
      (m : Db T A) (f : A → Db T B) → ((a : A) → Ensures Q (f a)) → Ensures Q (m >>= f)
  Ensures-bind m f k = Ensures-bind_where (λ _. Unit) m f (record { at = λ s a e. tt }) (λ a _. k a)

  continue_returns :
      (P : A → T → Type μ) (g : A → B)
      → ((a : A) (t : T) → P a t → Q (g a) t)
      → (x : Result A × Session T) → ((a : A) → x.0 ≡ ok a → P a x.1.tables)
      → (b : B) → (continue (λ a. pure (g a)) x).0 ≡ ok b
      → Q b (continue (λ a. pure (g a)) x).1.tables
  unfolding pure
  continue_returns P g f (ok a, s) h b e =
      subst (λ y. Q y s.tables) (ok_injective e) (f a s.tables (h a refl))
  continue_returns P g f (thrown x, s) h b e = cc
  continue_returns P g f (crashed, s) h b e = cc

  -- `const a = await m; return g(a)`
  pub Ensures-return :
      (P : A → T → Type μ) (g : A → B)
      → ((a : A) (t : T) → P a t → Q (g a) t)
      → (m : Db T A) → Ensures P m
      → Ensures Q (m >>= λ a. pure (g a))
  unfolding ◌>>=◌
  Ensures-return P g f m k = record { at = λ s. continue_returns P g f (m s) (k.at s) }

  continue_then :
      (P : A → T → Type μ) (S : T → T → Type μ) (V : A → B → Type 0) (f : A → Db T B)
      → ((a : A) → Moves S (f a))
      → ((a : A) → Ensures (λ b _. V a b) (f a))
      → ((a : A) (b : B) (t u : T) → P a t → S t u → V a b → Q b u)
      → (x : Result A × Session T) → ((a : A) → x.0 ≡ ok a → P a x.1.tables)
      → (b : B) → (continue f x).0 ≡ ok b
      → Q b (continue f x).1.tables
  continue_then P S V f k v g (ok a, s) h b e =
      g a b s.tables (f a s).1.tables (h a refl) ((k a).at s) ((v a).at s b e)
  continue_then P S V f k v g (thrown x, s) h b e = cc
  continue_then P S V f k v g (crashed, s) h b e = cc

  -- Something behind `m` that moves the tables by `S`, and returns what `V` says.
  pub Ensures-then :
      (P : A → T → Type μ) (S : T → T → Type μ) (V : A → B → Type 0) (m : Db T A) (f : A → Db T B)
      → Ensures P m
      → ((a : A) → Moves S (f a))
      → ((a : A) → Ensures (λ b _. V a b) (f a))
      → ((a : A) (b : B) (t u : T) → P a t → S t u → V a b → Q b u)
      → Ensures Q (m >>= f)
  unfolding ◌>>=◌
  Ensures-then P S V m f p k v g = record { at = λ s. continue_then P S V f k v g (m s) (p.at s) }

module _ {T A : Type 0} (Q : A → T → Type 0) where
  settle_ensures :
      (t : T) (x : Result A × Session T)
      → ((a : A) → x.0 ≡ ok a → Q a x.1.tables)
      → (a : A) → (settle t x).0 ≡ ok a
      → Q a (settle t x).1.tables
  settle_ensures t (ok b, s) h a e = h a e
  settle_ensures t (thrown x, s) h a e = cc
  settle_ensures t (crashed, s) h a e = cc

  Ensures-rolled_back : (m : Db T A) → Ensures Q m → Ensures Q (rolled_back m)
  unfolding rolled_back
  Ensures-rolled_back m k = record { at = λ s. settle_ensures s.tables (m s) (k.at s) }

  pub Ensures-transaction : (m : Db T A) → Ensures Q m → Ensures Q (transaction m)
  unfolding transaction
  Ensures-transaction m k = Ensures-bind Q _ _ (λ _. Ensures-rolled_back _ (
      Ensures-then Q Q ◌≡◌ (λ a b. b ≡ a) _ _ k
        (λ a. Quiet-bind _ _ (Quiet-query _) (λ _. Quiet-pure a))
        (λ a. Ensures-bind (λ b _. b ≡ a) _ _ (λ _. Ensures-pure (λ b _. b ≡ a) a (λ t. refl)))
        (λ a b t u h e v. rw (v, ← e) h)))
