-- ===== src/Html/Escaping.antt =====
-- src/application/rendering/html-escaping.ts
use Prim.Native.Char.{Char, code}
use roam_content_engine.Prelude.{
  ℕ, String, Option, none, some, Bool, true, false, List, [], ◌∷◌, ◌≡◌, refl, ap, ◌∙◌, ◌==◌,
  if◌then◌else◌, arith,
}
pub mod Reading

-- TEXT_ESCAPE_MAP
abbrev pub text_reference : ℕ → Option String
text_reference c =
    if c == b'&'
    then some "&amp;"
    else if c == b'<'
    then some "&lt;"
    else if c == b'>'
    then some "&gt;"
    else none

-- ATTRIBUTE_ESCAPE_MAP
abbrev pub attribute_reference : ℕ → Option String
attribute_reference c =
    if c == b'"' then some "&quot;" else if c == 39 then some "&#39;" else text_reference c

-- a text in front of another
abbrev pub before : String → String → String
before String.[] t = t
before (String.◌∷◌ c s) t = String.◌∷◌ c (before s t)

-- what `replace` puts in the place of one character
abbrev pub replaced : Option String → Char → String → String
replaced none c rest = String.◌∷◌ c rest
replaced (some reference) c rest = before reference rest

unfoldable pub escape_text : String → String
escape_text String.[] = ""
escape_text (String.◌∷◌ c s) = replaced (text_reference (code c)) c (escape_text s)

unfoldable pub escape_attribute : String → String
escape_attribute String.[] = ""
escape_attribute (String.◌∷◌ c s) = replaced (attribute_reference (code c)) c (escape_attribute s)

-- `escapeTitle`
unfoldable pub escape_title : String → String
unfolding escape_text
escape_title s = escape_text s
