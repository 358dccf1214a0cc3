-- ===== src/Json.antt =====
-- JSON values, as the jsonb columns hold them and as zod schemas of the source read them.
-- A number that is no non-negative integer is kept as its text.
use roam_content_engine.Prelude.{
  ℕ, String, Bool, true, false, Option, none, some, List, ◌&&◌, any, str_eq, if◌then◌else◌, ◌==◌,
  is_empty,
}

mutual
  pub data Json : Type 0 where
    null : Json
    flag : Bool → Json
    number : ℕ → Json
    other_number : String → Json
    text : String → Json
    array : Items → Json
    object : Fields → Json

  pub data Items : Type 0 where
    nil : Items
    cons : Json → Items → Items

  pub data Fields : Type 0 where
    end : Fields
    field : String → Json → Fields → Fields

-- the value under a key, if the object has it
abbrev pub lookup : String → Fields → Option Json
lookup k end = none
lookup k (field j v rest) = let later = lookup k rest in if str_eq j k then some v else later

-- a key that may be left out
abbrev pub optional_field : String → Option Json → Fields → Fields
optional_field k none rest = rest
optional_field k (some v) rest = field k v rest

-- `z.object(…).strict()`: no other keys than these
abbrev pub has_only : List String → Fields → Bool
has_only keys end = true
has_only keys (field k v rest) = any (str_eq k) keys && has_only keys rest

-- a value as a condition: `null`, `false`, 0 and the empty text are not true
abbrev pub is_truthy : Json → Bool
is_truthy null = false
is_truthy (flag b) = b
is_truthy (number n) = if n == 0 then false else true
is_truthy (other_number s) = true
is_truthy (text s) = if is_empty s then false else true
is_truthy _ = true

abbrev pub or_null : Option String → Json
or_null none = null
or_null (some s) = text s

-- Reading an object: each step fails or goes on.
infixl 5 ◌>>=◌
abbrev pub ◌>>=◌ {ℓ κ} : {A : Type ℓ} {B : Type κ} → Option A → (A → Option B) → Option B
none >>= f = none
some a >>= f = f a

-- a text that meets a condition
abbrev pub as_text : (String → Bool) → Json → Option String
as_text p (text s) = if p s then some s else none
as_text p _ = none

-- `z.number().int().nonnegative()`
abbrev pub as_natural : Json → Option ℕ
as_natural (number n) = some n
as_natural _ = none

-- `schema.optional()`: a missing key is passed over
abbrev pub optionally : (Json → Option Json) → Option Json → Option (Option Json)
optionally schema none = some none
optionally schema (some v) = schema v >>= λ w. some (some w)
