-- ===== src/Html/Checked.antt =====
-- What a function that may `throw new Error(message)` gives.
use roam_content_engine.Prelude.{String, Bool, true, false, ◌≡◌, refl, ap, arith}

pub data Checked {ℓ} (A : Type ℓ) : Type ℓ where
  failed : String → Checked A
  passed : A → Checked A

infixl 20 ◌>>=◌
abbrev pub ◌>>=◌ {ℓ} : {A B : Type ℓ} → Checked A → (A → Checked B) → Checked B
Checked.failed message >>= f = Checked.failed message
Checked.passed a >>= f = f a

-- `if (test) { throw new Error(message); }`
abbrev pub refuse_if : Bool → String → Checked (Unit {0})
refuse_if true message = Checked.failed message
refuse_if false _ = Checked.passed tt

-- The parts of a chain that passes.
pub passed_parts {ℓ} :
    {A B : Type ℓ} (m : Checked A) (f : A → Checked B) (b : B)
    → (m >>= f) ≡ Checked.passed b
    → (a : A) × (m ≡ Checked.passed a) × (f a ≡ Checked.passed b)
passed_parts (Checked.passed a) f b ends = (a, refl, ends)
passed_parts (Checked.failed message) f b ends = ground arith

-- what a value that passes gives: `from` where it fails
abbrev value_or {ℓ} : {A : Type ℓ} → A → Checked A → A
value_or from (Checked.failed message) = from
value_or from (Checked.passed a) = a

pub passed_injective {ℓ} : {A : Type ℓ} (a b : A) → Checked.passed a ≡ Checked.passed b → a ≡ b
passed_injective a b same = ap (value_or a) same

-- A test that does not refuse is not met.
pub refuse_if-passed :
    (test : Bool) (message : String) (u : Unit {0})
    → refuse_if test message ≡ Checked.passed u
    → test ≡ false
refuse_if-passed true message u ends = ground arith
refuse_if-passed false message u ends = refl
