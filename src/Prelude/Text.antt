-- ===== src/Prelude/Text.antt =====
-- The parts of the string type of the language that the source uses.
use Prim.Native.Nat.{ℕ, ◌+◌, ◌-◌, ◌≤◌}
use Prim.Native.Char.{code}
use Prim.Native.String.{String}
use mathlib.Core.Logic.{inl, inr}
use mathlib.Core.Bool.{Bool, true, false, ◌&&◌, ◌||◌}
use native.Mathlib.Omega.{arith}
use roam_content_engine.Prelude.Tests.{leb, ltb, ◌==◌, if◌then◌else◌, Bool-cases, leb→le, eqb→eq}

-- The white space that `String.prototype.trim` strips.
abbrev pub is_space : ℕ → Bool
is_space c =
    (leb 9 c && leb c 13)
    || c == 32
    || c == 0xa0
    || c == 0x1680
    || (leb 0x2000 c && leb c 0x200a)
    || c == 0x2028
    || c == 0x2029
    || c == 0x202f
    || c == 0x205f
    || c == 0x3000
    || c == 0xfeff

abbrev pub is_empty : String → Bool
is_empty String.[] = true
is_empty (String.◌∷◌ _ _) = false

unfoldable pub trim_start : String → String
trim_start String.[] = ""
trim_start (String.◌∷◌ c s) =
    let rest = trim_start s in if is_space (code c) then rest else String.◌∷◌ c s

unfoldable pub trim_end : String → String
trim_end String.[] = ""
trim_end (String.◌∷◌ c s) =
    let rest = trim_end s in if is_space (code c) && is_empty rest then "" else String.◌∷◌ c rest

-- `value.trim()`
unfoldable pub trim : String → String
unfolding trim_start trim_end
trim s = trim_end (trim_start s)

-- The UTF-16 code units of a character.
abbrev pub units : ℕ → ℕ
units c = if ltb c 0x10000 then 1 else 2

-- `value.length`
unfoldable pub utf16_length : String → ℕ
utf16_length String.[] = 0
utf16_length (String.◌∷◌ c s) = units (code c) + utf16_length s

-- what `slice` leaves of a character of two units when one unit is left
abbrev pub half : ℕ → String
half n = if n == 1 then "�" else ""

-- `value.slice(0, n)`. Half of a surrogate pair that the cut leaves is one unit, no white space, and no
-- character; it is written as U+FFFD, which an encoder to UTF-8 puts in its place.
unfoldable pub slice_to : ℕ → String → String
slice_to n String.[] = ""
slice_to n (String.◌∷◌ c s) =
    let rest = slice_to (n - units (code c)) s in
    if leb (units (code c)) n then String.◌∷◌ c rest else half n

utf16_length-half : (n : ℕ) → utf16_length (half n) ≤ n
unfolding utf16_length
utf16_length-half n = elim (Bool-cases (n == 1)) [
  | inl one ↦ rw one (omega (arith, eqb→eq n 1 one))
  | inr more ↦ rw more (omega arith)
]

pub utf16_length-slice_to : (n : ℕ) (s : String) → utf16_length (slice_to n s) ≤ n
unfolding utf16_length slice_to
utf16_length-slice_to n String.[] = omega arith
utf16_length-slice_to n (String.◌∷◌ c s) = elim (Bool-cases (leb (units (code c)) n)) [
  | inl fits ↦
      rw fits (omega (arith, utf16_length-slice_to (n - units (code c)) s, leb→le _ _ fits))
  | inr cut ↦ rw cut (utf16_length-half n)
]
