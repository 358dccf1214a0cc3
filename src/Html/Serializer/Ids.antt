-- ===== src/Html/Serializer/Ids.antt =====
-- The ids of the elements that are written.
use roam_content_engine.Prelude.{
  String, Option, none, some, Bool, true, false, List, [], ◌∷◌, ◌≡◌, refl, subst, ◌&&◌, not, any,
  str_eq, arith,
}
use roam_content_engine.Html.Types.{HtmlElementBase, HtmlNode, HtmlNodes}
use roam_content_engine.Html.Checked.{Checked, refuse_if, passed_parts, passed_injective}
use roam_content_engine.Html.Url.{Platform}
use roam_content_engine.Html.Attributes.{OutputAttributeMap, serialize_attributes}
use roam_content_engine.Html.Markup.{
  is_void, is_active, optional_url, normalize_href, normalize_src, truthy, attributes_of,
}
use roam_content_engine.Html.Serializer.{
  with_id, closed, create_controlled_attributes, open_tag, serialize_node, serialize_nodes,
}

-- no text of the list stands twice in it
abbrev pub are_distinct : List String → Bool
are_distinct [] = true
are_distinct (x ∷ xs) = not (any (str_eq x) xs) && are_distinct xs

abbrev pub id_onto : Option String → List String → List String
id_onto none ids = ids
id_onto (some id) ids = id ∷ ids

-- The ids of the elements that stand in the text that is written, the last one first, in front of
-- others. An element without a closing tag has its children left out.
unfoldable mutual
  pub ids_onto : HtmlNode → List String → List String
  ids_onto (HtmlNode.text s) ids = ids
  ids_onto (HtmlNode.element node children) ids = elim (is_void node.tag) [
    | true ↦ id_onto node.id ids
    | false ↦ all_ids_onto children (id_onto node.id ids)
  ]

  pub all_ids_onto : HtmlNodes → List String → List String
  all_ids_onto HtmlNodes.nil ids = ids
  all_ids_onto (HtmlNodes.cons node rest) ids = all_ids_onto rest (ids_onto node ids)

-- The set of ids is the one expected, and has no id twice.
abbrev pub AreIds : List String → List String → Type 0
AreIds ids expected = (ids ≡ expected) × (are_distinct ids ≡ true)

with_id-AreIds :
    (id : Option String) (ids written : List String)
    → with_id id ids ≡ Checked.passed written
    → are_distinct ids ≡ true
    → AreIds written (id_onto id ids)
with_id-AreIds none ids written ends ok = ground arith
with_id-AreIds (some id) ids written ends ok = ground arith

module _ (p : Platform) (locale_before : String → String → Bool) (language : String) where
  create_controlled_attributes-AreIds :
      (node : HtmlElementBase) (ids : List String) (created : OutputAttributeMap × List String)
      → create_controlled_attributes p locale_before language node ids ≡ Checked.passed created
      → are_distinct ids ≡ true
      → AreIds created.1 (id_onto node.id ids)
  unfolding create_controlled_attributes
  create_controlled_attributes-AreIds node ids created ends ok =
      let (written, with_it, ends1) = passed_parts (with_id node.id ids) _ created ends in
      let (href, _, ends2) =
        passed_parts
          (optional_url p locale_before (normalize_href p locale_before)
            (truthy node.attributes.href))
          _ created ends1 in
      let (src, _, ends3) =
        passed_parts
          (optional_url p locale_before (normalize_src p locale_before node.tag)
            (truthy node.attributes.src))
          _ created ends2 in
      subst (λ c. AreIds c.1 (id_onto node.id ids))
        (passed_injective (attributes_of p locale_before node language href src, written) created
          ends3)
        (with_id-AreIds node.id ids written with_it ok)

  open_tag-AreIds :
      (node : HtmlElementBase) (ids : List String) (opened : String × List String)
      → open_tag p locale_before language node ids ≡ Checked.passed opened
      → are_distinct ids ≡ true
      → AreIds opened.1 (id_onto node.id ids)
  unfolding open_tag
  open_tag-AreIds node ids opened ends ok =
      let (_, _, ends1) = passed_parts (refuse_if (is_active node.tag) _) _ opened ends in
      let (created, create, ends2) =
        passed_parts (create_controlled_attributes p locale_before language node ids) _ opened
          ends1 in
      let (text, _, ends3) = passed_parts (serialize_attributes created.0) _ opened ends2 in
      subst (λ o. AreIds o.1 (id_onto node.id ids)) (passed_injective _ opened ends3)
        (create_controlled_attributes-AreIds node ids created create ok)

  -- What stands behind the opening tag leaves the set as the children do, if any are written.
  closed-AreIds :
      (void : Bool) (tag opening : String) (ids expected : List String)
      (children : Checked (String × List String)) (written : String × List String)
      → closed void tag opening ids children ≡ Checked.passed written
      → are_distinct ids ≡ true
      → ((inner : String × List String) → children ≡ Checked.passed inner → AreIds inner.1 expected)
      → AreIds written.1 (elim void [ true ↦ ids | false ↦ expected ])
  closed-AreIds true tag opening ids expected children written ends known inside =
      subst (λ w. AreIds w.1 ids) (passed_injective (opening, ids) written ends) (refl, known)
  closed-AreIds false tag opening ids expected children written ends known inside =
      let (inner, reads, last) = passed_parts children _ written ends in
      subst (λ w. AreIds w.1 expected) (passed_injective _ written last) (inside inner reads)

  mutual
    unfolding serialize_node ids_onto open_tag

    pub serialize_node-AreIds :
        (node : HtmlNode) (ids : List String) (written : String × List String)
        → serialize_node p locale_before language node ids ≡ Checked.passed written
        → are_distinct ids ≡ true
        → AreIds written.1 (ids_onto node ids)
    serialize_node-AreIds (HtmlNode.text s) ids written ends ok =
        subst (λ w. AreIds w.1 ids) (passed_injective _ written ends) (refl, ok)
    serialize_node-AreIds (HtmlNode.element node children) ids written ends ok =
        let (opened, opens, last) =
          passed_parts (open_tag p locale_before language node ids) _ written ends in
        let (same, distinct) = open_tag-AreIds node ids opened opens ok in
        subst
          (λ i.
            AreIds written.1
              (elim (is_void node.tag) [ true ↦ i | false ↦ all_ids_onto children i ]))
          same
          (closed-AreIds (is_void node.tag) node.tag opened.0 opened.1
            (all_ids_onto children opened.1)
            (serialize_nodes p locale_before language children opened.1) written last distinct
            (λ inner reads. serialize_nodes-AreIds children opened.1 inner reads distinct))

    pub serialize_nodes-AreIds :
        (nodes : HtmlNodes) (ids : List String) (written : String × List String)
        → serialize_nodes p locale_before language nodes ids ≡ Checked.passed written
        → are_distinct ids ≡ true
        → AreIds written.1 (all_ids_onto nodes ids)
    serialize_nodes-AreIds HtmlNodes.nil ids written ends ok =
        subst (λ w. AreIds w.1 ids) (passed_injective _ written ends) (refl, ok)
    serialize_nodes-AreIds (HtmlNodes.cons node rest) ids written ends ok =
        let (first, writes, ends1) =
          passed_parts (serialize_node p locale_before language node ids) _ written ends in
        let (others, others_write, last) =
          passed_parts (serialize_nodes p locale_before language rest first.1) _ written ends1 in
        let (same, distinct) = serialize_node-AreIds node ids first writes ok in
        subst (λ i. AreIds written.1 (all_ids_onto rest i)) same
          (subst (λ w. AreIds w.1 (all_ids_onto rest first.1)) (passed_injective _ written last)
            (serialize_nodes-AreIds rest first.1 others others_write distinct))
