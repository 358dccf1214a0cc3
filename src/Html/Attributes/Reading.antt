-- ===== src/Html/Attributes/Reading.antt =====
-- How a browser reads the attributes of a tag.
use Prim.Native.Char.{Char, code}
use roam_content_engine.Prelude.{
  String, none, List, [], ◌∷◌, ◌≡◌, refl, ap, ◌∙◌, ◌==◌, Bool, true, false, ◌&&◌, ◌||◌, not, arith,
  ℕ,
}
use roam_content_engine.Html.Escaping.{before, replaced, attribute_reference, escape_attribute}
use roam_content_engine.Html.Escaping.Reading.{read, codes, read-escape_attribute}
use roam_content_engine.Html.Attributes.{entry}

-- `onto a b` is `a`, backwards, in front of `b`.
abbrev pub onto : String → String → String
onto String.[] b = b
onto (String.◌∷◌ c a) b = onto a (String.◌∷◌ c b)

onto-onto : (k a b : String) → onto (onto k a) b ≡ onto a (before k b)
onto-onto String.[] a b = refl
onto-onto (String.◌∷◌ c k) a b = onto-onto k (String.◌∷◌ c a) b

pub before-empty : (k : String) → before k "" ≡ k
before-empty String.[] = refl
before-empty (String.◌∷◌ c k) = ap (λ t. String.◌∷◌ c t) (before-empty k)

onto_twice : (k : String) → onto (onto k "") "" ≡ k
onto_twice k = onto-onto k "" "" ∙ before-empty k

-- Where a reader is: between attributes, in a name, behind the name's `=`, or in a value. What it has
-- read of the name and of the value stands backwards.
pub data Place : Type 0 where
  gap : Place
  in_name : String → Place
  behind_name : String → Place
  in_value : String → String → Place

-- The attributes that a text has, as names and the code points of values.
unfoldable pub read_attributes : Place → String → List (String × List ℕ)
unfolding read
read_attributes _ String.[] = []
read_attributes Place.gap (String.◌∷◌ c s) = elim (code c == b' ') [
  | true ↦ read_attributes Place.gap s
  | false ↦ read_attributes (Place.in_name (String.◌∷◌ c "")) s
]
read_attributes (Place.in_name name) (String.◌∷◌ c s) = elim (code c == b'=') [
  | true ↦ read_attributes (Place.behind_name name) s
  | false ↦ read_attributes (Place.in_name (String.◌∷◌ c name)) s
]
read_attributes (Place.behind_name name) (String.◌∷◌ c s) = elim (code c == b'"') [
  | true ↦ read_attributes (Place.in_value name "") s
  | false ↦ read_attributes Place.gap s
]
read_attributes (Place.in_value name value) (String.◌∷◌ c s) = elim (code c == b'"') [
  | true ↦ (onto name "", read none (onto value "")) ∷ read_attributes Place.gap s
  | false ↦ read_attributes (Place.in_value name (String.◌∷◌ c value)) s
]

-- none of the characters that end a value or open and close a tag
abbrev pub is_enclosed : String → Bool
is_enclosed String.[] = true
is_enclosed (String.◌∷◌ c s) =
    not (code c == b'"' || code c == 39 || code c == b'<' || code c == b'>') && is_enclosed s

is_enclosed-replaced :
    (c : Char) (s : String)
    → is_enclosed s ≡ true
    → is_enclosed (replaced (attribute_reference (code c)) c s) ≡ true
is_enclosed-replaced c s enclosed = ground arith

pub is_enclosed-escape_attribute : (s : String) → is_enclosed (escape_attribute s) ≡ true
unfolding escape_attribute
is_enclosed-escape_attribute String.[] = refl
is_enclosed-escape_attribute (String.◌∷◌ c s) =
    is_enclosed-replaced c (escape_attribute s) (is_enclosed-escape_attribute s)

enclosed_parts :
    (c : Char) (v : String)
    → is_enclosed (String.◌∷◌ c v) ≡ true
    → ((code c == b'"') ≡ false) × (is_enclosed v ≡ true)
enclosed_parts c v enclosed = ground arith

-- A value is read to the first quotation mark.
read_attributes-in_value :
    (name value v s : String)
    → is_enclosed v ≡ true
    → read_attributes (Place.in_value name value) (before v (before "\"" s))
      ≡ (onto name "", read none (onto value v)) ∷ read_attributes Place.gap s
unfolding read_attributes
read_attributes-in_value name value String.[] s enclosed = refl
read_attributes-in_value name value (String.◌∷◌ c v) s enclosed =
    let (no_quote, rest) = enclosed_parts c v enclosed in
    rw (no_quote, read_attributes) (read_attributes-in_value name (String.◌∷◌ c value) v s rest)

-- no character that ends a name
abbrev pub is_name_rest : String → Bool
is_name_rest String.[] = true
is_name_rest (String.◌∷◌ c s) = not (code c == b'=' || code c == b' ') && is_name_rest s

abbrev pub is_name : String → Bool
is_name String.[] = false
is_name (String.◌∷◌ c s) = is_name_rest (String.◌∷◌ c s)

name_parts :
    (c : Char) (k : String)
    → is_name_rest (String.◌∷◌ c k) ≡ true
    → ((code c == b'=') ≡ false) × (is_name_rest k ≡ true)
name_parts c k is_ok = ground arith

name_starts : (c : Char) (k : String) → is_name (String.◌∷◌ c k) ≡ true → (code c == b' ') ≡ false
name_starts c k is_ok = ground arith

read_attributes-in_name :
    (name k s : String)
    → is_name_rest k ≡ true
    → read_attributes (Place.in_name name) (before k (before "=" s))
      ≡ read_attributes (Place.behind_name (onto k name)) s
unfolding read_attributes
read_attributes-in_name name String.[] s is_ok = refl
read_attributes-in_name name (String.◌∷◌ c k) s is_ok =
    let (no_equals, rest) = name_parts c k is_ok in
    rw (no_equals, read_attributes) (read_attributes-in_name (String.◌∷◌ c name) k s rest)

before-before : (a b s : String) → before (before a b) s ≡ before a (before b s)
before-before String.[] b s = refl
before-before (String.◌∷◌ c a) b s = ap (λ t. String.◌∷◌ c t) (before-before a b s)

-- the text of an entry, in front of another text
entry-before :
    (k v s : String)
    → before (entry k v) s
      ≡ before k (before "=" (before "\"" (before (escape_attribute v) (before "\"" s))))
unfolding entry
entry-before k v s =
    before-before k (before "=\"" (before (escape_attribute v) "\"")) s
    ∙ ap (λ t. before k (before "=\"" t)) (before-before (escape_attribute v) "\"" s)

-- A name is read from between the attributes.
read_attributes-name :
    (k s : String)
    → is_name k ≡ true
    → read_attributes Place.gap (before k (before "=" s))
      ≡ read_attributes (Place.behind_name (onto k "")) s
unfolding read_attributes
read_attributes-name String.[] s is_ok = ground arith
read_attributes-name (String.◌∷◌ c k) s is_ok =
    let (no_equals, rest) = name_parts c k is_ok in
    rw (name_starts c k is_ok, read_attributes) (read_attributes-in_name (String.◌∷◌ c "") k s rest)

-- An entry is read as its attribute.
pub read_attributes-entry :
    (k v s : String)
    → is_name k ≡ true
    → read_attributes Place.gap (before (entry k v) s) ≡ (k, codes v) ∷ read_attributes Place.gap s
unfolding read_attributes
read_attributes-entry k v s is_ok =
    ap (read_attributes Place.gap) (entry-before k v s)
    ∙ read_attributes-name k (before "\"" (before (escape_attribute v) (before "\"" s))) is_ok
    ∙ read_attributes-in_value (onto k "") "" (escape_attribute v) s
        (is_enclosed-escape_attribute v)
    ∙ ap (λ key. (key, read none (escape_attribute v)) ∷ read_attributes Place.gap s) (onto_twice k)
    ∙ ap (λ value. (k, value) ∷ read_attributes Place.gap s) (read-escape_attribute v)
