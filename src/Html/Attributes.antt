-- ===== src/Html/Attributes.antt =====
-- How the attributes of a tag are written: serializeAttributes of
-- src/application/rendering/html-markup-serializer.ts
use Prim.Native.Char.{code}
use roam_content_engine.Prelude.{
  String, Option, none, some, Bool, true, false, List, [], ◌∷◌, if◌then◌else◌, starts_with,
}
use roam_content_engine.Html.Checked.{Checked, ◌>>=◌}
use roam_content_engine.Html.Escaping.{before, escape_attribute}
pub mod Reading
pub mod ReadBack

-- CONTROLLED_ATTRIBUTE_ORDER
abbrev pub controlled_attribute_order : List String
controlled_attribute_order =
    "id" ∷ "class" ∷ "lang" ∷ "role" ∷ "aria-label" ∷ "aria-labelledby" ∷ "aria-describedby"
    ∷ "href" ∷ "src" ∷ "alt" ∷ "title" ∷ "target" ∷ "rel" ∷ "scope" ∷ "colspan" ∷ "rowspan"
    ∷ "loading" ∷ "decoding" ∷ "referrerpolicy" ∷ "data-publication-block" ∷ "data-reference-id"
    ∷ "data-citation-id" ∷ "data-footnote-id" ∷ []

-- `OutputAttributeMap`: `none` is `undefined`
abbrev pub OutputAttributeMap : Type 0
OutputAttributeMap = String → Option String

-- `${key}="${escapeAttribute(value)}"`
unfoldable pub entry : String → String → String
unfolding escape_attribute
entry key value = before key (before "=\"" (before (escape_attribute value) "\""))

-- the rest of the loop, with the entry of a key in front
abbrev pub pushed : String → Option String → Checked (List String) → Checked (List String)
pushed key none rest = rest
pushed key (some value) rest =
    if starts_with key "on"
    then Checked.failed "Event handler attributes are not allowed."
    else (do entries ← rest; Checked.passed (entry key value ∷ entries))

-- the loop over the keys
unfoldable pub entries_of : OutputAttributeMap → List String → Checked (List String)
unfolding entry
entries_of attributes [] = Checked.passed []
entries_of attributes (key ∷ keys) = pushed key (attributes key) (entries_of attributes keys)

-- `entries.join(' ')`
unfoldable pub join_spaced : List String → String
join_spaced [] = ""
join_spaced (x ∷ []) = x
join_spaced (x ∷ y ∷ xs) = before x (before " " (join_spaced (y ∷ xs)))

abbrev pub spaced : List String → String
spaced [] = ""
spaced (x ∷ xs) = before " " (join_spaced (x ∷ xs))

unfoldable pub serialize_attributes : OutputAttributeMap → Checked String
unfolding entries_of join_spaced
serialize_attributes attributes = do
  entries ← entries_of attributes controlled_attribute_order
  Checked.passed (spaced entries)
