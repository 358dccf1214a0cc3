-- ===== src/Html/Serializer.antt =====
-- How a tree of nodes is written, and the documents whose trees are accepted:
-- src/application/rendering/html-markup-serializer.ts
-- The set of the ids that have been written is passed on; its last one stands first. The shell that
-- the composer of publication packages puts around the body is left out.
use roam_content_engine.Prelude.{
  ℕ, String, Option, none, some, Bool, true, false, List, [], ◌∷◌, ◌≡◌, ◌==◌, not, any, str_eq,
  if◌then◌else◌,
}
use roam_content_engine.Html.Types.{HtmlElementBase, HtmlNode, HtmlNodes}
use roam_content_engine.Html.Checked.{Checked, ◌>>=◌, refuse_if}
use roam_content_engine.Html.Escaping.{before, escape_text}
use roam_content_engine.Html.Url.{Platform}
use roam_content_engine.Html.Attributes.{OutputAttributeMap, serialize_attributes}
use roam_content_engine.Html.Markup.{
  is_void, is_active, truthy, optional_url, normalize_href, normalize_src, attributes_of,
}
pub mod Ids
pub mod Passive
pub mod Addresses

-- `if (node.id !== null)`: the set with the node's id, unless it has it already
abbrev pub with_id : Option String → List String → Checked (List String)
with_id none ids = Checked.passed ids
with_id (some id) ids = do
  _ ← refuse_if (any (str_eq id) ids) "Duplicate HTML ID detected during serialization."
  Checked.passed (id ∷ ids)

-- what is written behind the tag that opens an element: its children, if it may have any
abbrev pub closed :
    Bool
    → String
    → String
    → List String
    → Checked (String × List String)
    → Checked (String × List String)
closed true tag opening ids children = Checked.passed (opening, ids)
closed false tag opening ids children = do
  written ← children
  Checked.passed (before opening (before written.0 (before "</" (before tag ">"))), written.1)

-- one text and another behind it
abbrev pub followed :
    Checked (String × List String)
    → (List String → Checked (String × List String))
    → Checked (String × List String)
followed first next = do
  written ← first
  rest ← next written.1
  Checked.passed (before written.0 rest.0, rest.1)

module _ (p : Platform) (locale_before : String → String → Bool) (language : String) where
  -- `createControlledAttributes`
  unfoldable pub create_controlled_attributes :
      HtmlElementBase → List String → Checked (OutputAttributeMap × List String)
  unfolding normalize_href normalize_src attributes_of
  create_controlled_attributes node ids = do
    written ← with_id node.id ids
    href ←
        optional_url p locale_before (normalize_href p locale_before) (truthy node.attributes.href)
    src ←
        optional_url p locale_before (normalize_src p locale_before node.tag)
          (truthy node.attributes.src)
    Checked.passed (attributes_of p locale_before node language href src, written)

  -- the tag that opens an element, and the ids
  unfoldable pub open_tag : HtmlElementBase → List String → Checked (String × List String)
  unfolding create_controlled_attributes serialize_attributes
  open_tag node ids = do
    _ ← refuse_if (is_active node.tag) "Active content elements are not allowed."
    created ← create_controlled_attributes node ids
    serialized ← serialize_attributes created.0
    Checked.passed (before "<" (before node.tag (before serialized ">")), created.1)

  -- `serializeNode`, and what it does to the children
  unfoldable mutual
    unfolding open_tag escape_text

    pub serialize_node : HtmlNode → List String → Checked (String × List String)
    serialize_node (HtmlNode.text s) ids = Checked.passed (escape_text s, ids)
    serialize_node (HtmlNode.element node children) ids = do
      opened ← open_tag node ids
      closed (is_void node.tag) node.tag opened.0 opened.1 (serialize_nodes children opened.1)

    pub serialize_nodes : HtmlNodes → List String → Checked (String × List String)
    serialize_nodes HtmlNodes.nil ids = Checked.passed ("", ids)
    serialize_nodes (HtmlNodes.cons node rest) ids =
        followed (serialize_node node ids) (serialize_nodes rest)
