-- ===== src/Db.antt =====
-- A session with the database, for the statements that the repositories under
-- src/infrastructure send through drizzle-orm. `T` is the record of the tables.
-- A statement is a function of the tables. What the source does not determine is in the session:
-- the faults that the driver reports, one entry for each coming statement (none for the rest),
-- the rows that other transactions have locked, the values that `ulid()` returns and those that
-- `now()` returns.
pub mod Moves
pub mod Order
pub mod Ensures
pub mod Rows
pub mod Extends
pub mod Found
use Prim.Native.String.{◌++◌ as str_append}
use roam_content_engine.Prelude.{
  ℕ, ◌+◌, String, Bool, true, false, Option, none, some, List, [], ◌∷◌, if◌then◌else◌, trim,
  is_empty,
}
use roam_content_engine.Errors.{Thrown, validation, to_database_unavailable}

-- `crashed`: a promise was rejected with no handler, which ends the process.
pub data Result {ℓ} (A : Type ℓ) : Type ℓ where
  ok : A → Result A
  thrown : Thrown → Result A
  crashed : Result A

pub record Session (T : Type 0) : Type 0 where
  pub tables : T
  pub faults : List (Option Thrown)
  pub locked : String → Bool
  pub ulids : ℕ → String
  pub drawn : ℕ
  pub clock : ℕ → ℕ
  pub read : ℕ

abbrev pub Db {ℓ} : Type 0 → Type ℓ → Type ℓ
Db T A = Session T → Result A × Session T

module _ {ℓ} {T : Type 0} {A : Type ℓ} where
  unfoldable pub pure : A → Db T A
  pure a s = (ok a, s)

  unfoldable pub throw : Thrown → Db T A
  throw e s = (thrown e, s)

  -- One statement: the driver reports a fault, or the server runs it.
  unfoldable pub statement : (T → A × T) → Db T A
  statement f s = elim s.faults [
    | [] ↦ (ok (f s.tables).0, record s { tables = (f s.tables).1 })
    | some e ∷ rest ↦ (thrown e, record s { faults = rest })
    | none ∷ rest ↦ (ok (f s.tables).0, record s { tables = (f s.tables).1; faults = rest })
  ]

  -- A statement that only reads; it sees which rows are locked.
  unfoldable pub query : (T → (String → Bool) → A) → Db T A
  query f s = elim s.faults [
    | [] ↦ (ok (f s.tables s.locked), s)
    | some e ∷ rest ↦ (thrown e, record s { faults = rest })
    | none ∷ rest ↦ (ok (f s.tables s.locked), record s { faults = rest })
  ]

  -- What a failed transaction leaves: the tables as they were.
  abbrev settle : T → Result A × Session T → Result A × Session T
  settle before (ok a, s) = (ok a, s)
  settle before (thrown e, s) = (thrown e, record s { tables = before })
  settle before (crashed, s) = (crashed, record s { tables = before })

  unfoldable pub rolled_back : Db T A → Db T A
  rolled_back m s = settle s.tables (m s)

  abbrev handle : (Thrown → Db T A) → Result A × Session T → Result A × Session T
  handle h (ok a, s) = (ok a, s)
  handle h (thrown e, s) = h e s
  handle h (crashed, s) = (crashed, s)

  -- `try { m } catch (error) { h(error) }`
  unfoldable pub catching : Db T A → (Thrown → Db T A) → Db T A
  catching m h s = handle h (m s)

module _ {ℓ κ} {T : Type 0} {A : Type ℓ} {B : Type κ} where
  abbrev continue : (A → Db T B) → Result A × Session T → Result B × Session T
  continue f (ok a, s) = f a s
  continue f (thrown e, s) = (thrown e, s)
  continue f (crashed, s) = (crashed, s)

  infixl 5 ◌>>=◌
  unfoldable pub ◌>>=◌ : Db T A → (A → Db T B) → Db T B
  ◌>>=◌ m f s = continue f (m s)

infixl 5 ◌>>◌
abbrev pub ◌>>◌ {κ} : {T : Type 0} {B : Type κ} → Db T (Unit {0}) → Db T B → Db T B
m >> n = m >>= λ _. n

module _ {T : Type 0} where
  -- `ulid()`
  unfoldable pub draw : Db T String
  draw s = (ok (s.ulids s.drawn), record s { drawn = s.drawn + 1 })

  -- `now()`
  unfoldable pub now : Db T ℕ
  now s = (ok (s.clock s.read), record s { read = s.read + 1 })

  -- The catch of every repository method: `throw toDatabaseUnavailableError(error, message)`.
  unfoldable pub translating {ℓ} : {A : Type ℓ} → String → Db T A → Db T A
  translating message m = catching m (λ e. throw (to_database_unavailable e message))

  -- `ensureNonEmpty(value, field)`
  unfoldable pub ensure_non_empty : String → String → Db T String
  ensure_non_empty value field =
      if is_empty (trim value)
      then throw (validation (str_append field " cannot be empty."))
      else pure (trim value)

-- BEGIN, the body, COMMIT: each can fail, and a failure rolls back.
unfoldable pub transaction {ℓ} : {T : Type 0} {A : Type ℓ} → Db T A → Db T A
transaction body = do query (λ _ _. tt); rolled_back do a ← body; query (λ _ _. tt); pure a

-- Statements on a table, a list of rows.
module _ {ℓ} {R : Type ℓ} where
  -- UPDATE … SET … WHERE …
  unfoldable pub update_where : (R → Bool) → (R → R) → List R → List R
  update_where cond set [] = []
  update_where cond set (r ∷ rs) = (if cond r then set r else r) ∷ update_where cond set rs

  -- the rows that RETURNING gives
  unfoldable pub returning : (R → Bool) → (R → R) → List R → List R
  returning cond set [] = []
  returning cond set (r ∷ rs) =
      let rest = returning cond set rs in if cond r then set r ∷ rest else rest

  -- SELECT … WHERE … LIMIT 1
  unfoldable pub find_first : (R → Bool) → List R → Option R
  find_first cond [] = none
  find_first cond (r ∷ rs) = let rest = find_first cond rs in if cond r then some r else rest

  -- ORDER BY …: insertion into a sorted list, behind the rows of the same key
  insert_by : (R → R → Bool) → R → List R → List R
  insert_by before r [] = r ∷ []
  insert_by before r (x ∷ xs) =
      let rest = insert_by before r xs in if before x r then x ∷ rest else r ∷ x ∷ xs

  unfoldable pub order_by : (R → R → Bool) → List R → List R
  unfolding insert_by
  order_by before [] = []
  order_by before (r ∷ rs) = insert_by before r (order_by before rs)
