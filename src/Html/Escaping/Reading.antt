-- ===== src/Html/Escaping/Reading.antt =====
-- How a browser reads what was escaped: character references are replaced by what they name.
use Prim.Native.Char.{Char, code}
use roam_content_engine.Prelude.{
  ℕ, String, Option, none, some, true, false, List, [], ◌∷◌, str_eq, ◌≡◌, refl, ap, ◌∙◌, ◌==◌,
  if◌then◌else◌, arith,
}
use roam_content_engine.Html.Escaping.{
  text_reference, attribute_reference, replaced, escape_text, escape_attribute,
}

-- The code points of a text.
abbrev pub codes : String → List ℕ
codes String.[] = []
codes (String.◌∷◌ c s) = code c ∷ codes s

-- What a reference names; `name` is what stands between `&` and `;`, read backwards. Others are kept.
abbrev pub named : String → Option ℕ
named name =
    if str_eq name "pma"
    then some b'&'
    else if str_eq name "tl"
    then some b'<'
    else if str_eq name "tg"
    then some b'>'
    else if str_eq name "touq"
    then some b'"'
    else if str_eq name "93#"
    then some 39
    else none

abbrev pub backwards : String → List ℕ → List ℕ
backwards String.[] s = s
backwards (String.◌∷◌ c name) s = backwards name (code c ∷ s)

-- the character that a reference names, or what stands there, in front of what follows
abbrev pub resolved : Option ℕ → String → List ℕ → List ℕ
resolved (some c) _ s = c ∷ s
resolved none name s = b'&' ∷ backwards name (b';' ∷ s)

-- The code points that a browser shows for a text; `pending` is what it has read behind an `&`.
unfoldable pub read : Option String → String → List ℕ
read none String.[] = []
read (some name) String.[] = b'&' ∷ backwards name []
read none (String.◌∷◌ c s) = elim (code c == b'&') [
  | true ↦ read (some "") s
  | false ↦ code c ∷ read none s
]
read (some name) (String.◌∷◌ c s) = elim (code c == b';') [
  | true ↦ resolved (named name) name (read none s)
  | false ↦ read (some (String.◌∷◌ c name)) s
]

-- One character is read back from its reference.
pub read-text_reference :
    (c : Char) (s : String)
    → read none (replaced (text_reference (code c)) c s) ≡ code c ∷ read none s
unfolding read
read-text_reference c s = ground arith

-- One character is read back from its reference in an attribute's value.
pub read-attribute_reference :
    (c : Char) (s : String)
    → read none (replaced (attribute_reference (code c)) c s) ≡ code c ∷ read none s
unfolding read
read-attribute_reference c s = ground arith

pub read-escape_text : (s : String) → read none (escape_text s) ≡ codes s
unfolding escape_text read
read-escape_text String.[] = refl
read-escape_text (String.◌∷◌ c s) =
    read-text_reference c (escape_text s) ∙ ap (λ t. code c ∷ t) (read-escape_text s)

pub read-escape_attribute : (s : String) → read none (escape_attribute s) ≡ codes s
unfolding escape_attribute read
read-escape_attribute String.[] = refl
read-escape_attribute (String.◌∷◌ c s) =
    read-attribute_reference c (escape_attribute s) ∙ ap (λ t. code c ∷ t) (read-escape_attribute s)
