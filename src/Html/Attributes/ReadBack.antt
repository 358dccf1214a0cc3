-- ===== src/Html/Attributes/ReadBack.antt =====
-- The attributes that are written, read again.
use roam_content_engine.Prelude.{
  String, Option, none, some, List, [], ◌∷◌, ℕ, ◌≡◌, refl, sym, ap, ◌∙◌, true, false, starts_with,
  arith, All,
}
use roam_content_engine.Html.Checked.{Checked}
use roam_content_engine.Html.Escaping.{before}
use roam_content_engine.Html.Escaping.Reading.{codes}
use roam_content_engine.Html.Attributes.{
  OutputAttributeMap, controlled_attribute_order, entry, entries_of, pushed, join_spaced, spaced,
  serialize_attributes,
}
use roam_content_engine.Html.Attributes.Reading.{
  Place, read_attributes, is_name, read_attributes-entry, before-empty,
}

-- The attributes that are there, with their values' code points, in the order of the keys.
abbrev pub listed : String → Option String → List (String × List ℕ) → List (String × List ℕ)
listed key none rest = rest
listed key (some value) rest = (key, codes value) ∷ rest

unfoldable pub attributes_in : OutputAttributeMap → List String → List (String × List ℕ)
attributes_in attributes [] = []
attributes_in attributes (key ∷ keys) = listed key (attributes key) (attributes_in attributes keys)

-- What is known of a list of entries: how it is read.
ReadAs : List (String × List ℕ) → List String → Type 0
unfolding read_attributes join_spaced
ReadAs attributes entries = read_attributes Place.gap (spaced entries) ≡ attributes

-- A name of an attribute that is no event handler's.
abbrev IsPlain : String → Type 0
IsPlain key = (is_name key ≡ true) × (starts_with key "on" ≡ false)

read_attributes-spaced :
    (key value : String) (entries : List String) (rest : List (String × List ℕ))
    → is_name key ≡ true
    → ReadAs rest entries
    → ReadAs ((key, codes value) ∷ rest) (entry key value ∷ entries)
unfolding ReadAs
read_attributes-spaced key value [] rest is_ok known =
    ap (read_attributes Place.gap) (sym (before-empty (entry key value)))
    ∙ read_attributes-entry key value "" is_ok
    ∙ ap (λ r. (key, codes value) ∷ r) known
read_attributes-spaced key value (x ∷ xs) rest is_ok known =
    read_attributes-entry key value (before " " (join_spaced (x ∷ xs))) is_ok
    ∙ ap (λ r. (key, codes value) ∷ r) known

-- Entries that are written and read as the attributes given.
Written : List (String × List ℕ) → Checked (List String) → Type 0
unfolding ReadAs
Written attributes written =
    (entries : List String) × (written ≡ Checked.passed entries) × ReadAs attributes entries

Written-pushed :
    (key : String) (value : Option String) (written : Checked (List String))
    (rest : List (String × List ℕ))
    → IsPlain key
    → Written rest written
    → Written (listed key value rest) (pushed key value written)
unfolding Written
Written-pushed key none written rest plain known = known
Written-pushed key (some value) written rest (is_ok, no_event) (entries, passed, read_as) = (
  entry key value ∷ entries,
  rw (no_event, passed) refl,
  read_attributes-spaced key value entries rest is_ok read_as,
)

entries_of-Written :
    (attributes : OutputAttributeMap) (keys : List String)
    → All IsPlain keys
    → Written (attributes_in attributes keys) (entries_of attributes keys)
unfolding Written entries_of attributes_in
entries_of-Written attributes [] plain = ([], refl, refl)
entries_of-Written attributes (key ∷ keys) (plain, rest) =
    Written-pushed key (attributes key) (entries_of attributes keys) (attributes_in attributes keys)
      plain (entries_of-Written attributes keys rest)

controlled_attribute_order-IsPlain : All IsPlain controlled_attribute_order
controlled_attribute_order-IsPlain = ground arith

-- The attributes of a tag are always written, and a browser that reads them finds just the
-- attributes that are there, in the controlled order, each with its value, whatever the values are.
pub serialize_attributes-read :
    (attributes : OutputAttributeMap)
    → (text : String) × (serialize_attributes attributes ≡ Checked.passed text)
      × (read_attributes Place.gap text ≡ attributes_in attributes controlled_attribute_order)
unfolding serialize_attributes Written
serialize_attributes-read attributes =
    let (entries, passed, read_as) =
      entries_of-Written attributes controlled_attribute_order controlled_attribute_order-IsPlain in
    (spaced entries, rw passed refl, read_as)
