-- ===== src/Html/Markup.antt =====
-- How nodes are written: src/application/rendering/html-markup-serializer.ts
use Prim.Native.Char.{code}
use roam_content_engine.Prelude.{
  String, Option, none, some, Bool, ◌||◌, List, [], ◌∷◌, ◌++◌, ◌==◌, map, coalesce, if◌then◌else◌,
  any, starts_with, str_eq, units,
}
use roam_content_engine.Db.{order_by}
use roam_content_engine.Html.Types.{HtmlAttributes, HtmlStyleToken, HtmlElementBase}
use roam_content_engine.Html.Checked.{Checked, ◌>>=◌}
use roam_content_engine.Html.Escaping.{before}
use roam_content_engine.Html.Url.{
  Platform, is_ascii_alphanumeric, assert_safe_external_url, assert_safe_asset_url,
  assert_safe_internal_href,
}
use roam_content_engine.Html.Attributes.{OutputAttributeMap, join_spaced}

-- VOID_TAGS.has
abbrev pub is_void : String → Bool
is_void tag = str_eq tag "hr" || str_eq tag "img"

abbrev pub is_heading : String → Bool
is_heading tag = any (str_eq tag) ("h1" ∷ "h2" ∷ "h3" ∷ "h4" ∷ "h5" ∷ "h6" ∷ [])

-- TAG_BASE_CLASS_MAP
abbrev pub tag_base_class : String → List String
tag_base_class tag =
    if str_eq tag "article"
    then "publication" ∷ []
    else if str_eq tag "main"
    then "publication-main" ∷ []
    else if str_eq tag "section"
    then "publication-section" ∷ []
    else if str_eq tag "nav"
    then "publication-navigation" ∷ []
    else if str_eq tag "p"
    then "publication-paragraph" ∷ []
    else if str_eq tag "figure"
    then "publication-figure" ∷ []
    else if str_eq tag "figcaption"
    then "publication-caption" ∷ []
    else if str_eq tag "ul" || str_eq tag "ol"
    then "publication-list" ∷ []
    else if str_eq tag "table"
    then "publication-table" ∷ []
    else if is_heading tag
    then "publication-heading" ∷ []
    else []

abbrev pub block_types : List String
block_types =
    "reflection" ∷ "call-to-action" ∷ "prayer" ∷ "journal-prompt" ∷ "sidebar" ∷ "key-takeaway"
    ∷ "warning" ∷ "highlight" ∷ "scripture" ∷ []

-- BLOCK_HOOKS
abbrev pub block_hooks : String → List String
block_hooks block =
    if any (str_eq block) block_types
    then "publication-block" ∷ before "publication-" block ∷ []
    else []

-- `[...new Set(classes)]`; the first argument has the classes that have been seen
unfoldable pub distinct : List String → List String → List String
distinct seen [] = []
distinct seen (x ∷ xs) =
    let rest = distinct (x ∷ seen) xs in if any (str_eq x) seen then rest else x ∷ rest

-- `if (value)`: an empty text is not taken
abbrev pub truthy : Option String → Option String
truthy (some String.[]) = none
truthy value = value

-- `attributes[key] = value`, if there is a value
abbrev pub assign : String → Option String → OutputAttributeMap → OutputAttributeMap
assign key none attributes = attributes
assign key (some value) attributes = λ k. if str_eq k key then some value else attributes k

-- one assignment after the other
abbrev pub assign_all : List (String × Option String) → OutputAttributeMap → OutputAttributeMap
assign_all [] attributes = attributes
assign_all ((key, value) ∷ rest) attributes = assign_all rest (assign key value attributes)

-- `.replace(/[^a-z0-9-]/gi, '-')`, which goes by UTF-16 units
abbrev pub dashed : String → String
dashed String.[] = ""
dashed (String.◌∷◌ c s) =
    if is_ascii_alphanumeric (code c) || code c == b'-'
    then String.◌∷◌ c (dashed s)
    else if units (code c) == 1
    then before "-" (dashed s)
    else before "--" (dashed s)

abbrev pub is_active : String → Bool
is_active tag = any (str_eq tag) ("script" ∷ "iframe" ∷ "object" ∷ "embed" ∷ "form" ∷ [])

-- `(a, b) => a.localeCompare(b)` as a test that `a` may stand before `b`, and the platform of Url.
module _ (p : Platform) (locale_before : String → String → Bool) where
  unfoldable pub normalize_classes : List String → List String
  unfolding distinct order_by
  normalize_classes classes = order_by locale_before (distinct [] classes)

  abbrev pub token_class : HtmlStyleToken → String
  token_class token =
      let category = p.to_lower_case (dashed token.category) in
      let value = p.to_lower_case (dashed token.value) in
      before "token-" (before category (before "-" value))

  unfoldable pub normalize_style_token_classes : List HtmlStyleToken → List String
  unfolding normalize_classes
  normalize_style_token_classes tokens = normalize_classes (map token_class tokens)

  abbrev pub external_schemes : List String
  external_schemes = "https" ∷ "http" ∷ "mailto" ∷ []

  abbrev pub asset_schemes : List String
  asset_schemes = "https" ∷ "http" ∷ "asset" ∷ []

  -- `validateAndNormalizeUrl` of an href and of a src
  unfoldable pub normalize_href : String → Checked String
  unfolding assert_safe_internal_href assert_safe_external_url
  normalize_href value =
      if starts_with value "#"
      then assert_safe_internal_href p value
      else assert_safe_external_url p value external_schemes

  unfoldable pub normalize_src : String → String → Checked String
  unfolding assert_safe_asset_url assert_safe_external_url
  normalize_src tag value =
      if str_eq tag "img"
      then assert_safe_asset_url p value asset_schemes
      else assert_safe_external_url p value external_schemes

  abbrev pub optional_url : (String → Checked String) → Option String → Checked (Option String)
  optional_url normalize none = Checked.passed none
  optional_url normalize (some value) = do
    normalized ← normalize value
    Checked.passed (some normalized)

  -- the classes of an element, before they are sorted
  unfoldable pub controlled_classes : HtmlElementBase → List String
  unfolding normalize_style_token_classes
  controlled_classes node =
      tag_base_class node.tag
      ++ block_hooks (coalesce node.attributes.data_publication_block "")
      ++ map (λ entry. before "class-" entry) node.class_list
      ++ normalize_style_token_classes node.style_tokens

  -- `undefined` without any class
  abbrev pub joined_classes : List String → Option String
  joined_classes [] = none
  joined_classes (x ∷ xs) = some (join_spaced (x ∷ xs))

  -- the attributes, with the addresses that have been checked
  -- the attributes before the addresses
  unfoldable pub leading : HtmlElementBase → String → List (String × Option String)
  unfolding normalize_classes join_spaced controlled_classes
  leading node language =
      ("id", node.id)
      ∷ ("class", joined_classes (normalize_classes (controlled_classes node)))
      ∷ ("lang", if str_eq node.tag "html" then some language else none)
      ∷ ("role", truthy node.role)
      ∷ ("aria-label", truthy node.aria_label)
      ∷ ("aria-labelledby", truthy node.attributes.aria_labelled_by)
      ∷ ("aria-describedby", truthy node.attributes.aria_described_by)
      ∷ []

  -- … and behind them
  unfoldable pub trailing : HtmlAttributes → List (String × Option String)
  trailing a =
      ("alt", truthy a.alt)
      ∷ ("title", truthy a.title)
      ∷ ("target", truthy a.target)
      ∷ ("rel", truthy a.rel)
      ∷ ("scope", truthy a.scope)
      ∷ ("colspan", truthy a.colspan)
      ∷ ("rowspan", truthy a.rowspan)
      ∷ ("loading", truthy a.loading)
      ∷ ("decoding", truthy a.decoding)
      ∷ ("referrerpolicy", truthy a.referrerpolicy)
      ∷ ("data-publication-block", truthy a.data_publication_block)
      ∷ ("data-reference-id", truthy a.data_reference_id)
      ∷ ("data-citation-id", truthy a.data_citation_id)
      ∷ ("data-footnote-id", truthy a.data_footnote_id)
      ∷ []

  unfoldable pub assignments :
      HtmlElementBase → String → Option String → Option String → List (String × Option String)
  unfolding leading trailing
  assignments node language href src =
      leading node language ++ ("href", href) ∷ ("src", src) ∷ trailing node.attributes

  unfoldable pub attributes_of :
      HtmlElementBase → String → Option String → Option String → OutputAttributeMap
  unfolding assignments
  attributes_of node language href src = assign_all (assignments node language href src) (λ _. none)
