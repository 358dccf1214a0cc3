-- ===== src/Html/Serializer/Passive.antt =====
-- Active content and what is written.
use roam_content_engine.Prelude.{String, Bool, true, false, List, ◌≡◌, refl, not, ◌&&◌, arith}
use roam_content_engine.Html.Types.{HtmlElementBase, HtmlNode, HtmlNodes}
use roam_content_engine.Html.Checked.{Checked, refuse_if, passed_parts}
use roam_content_engine.Html.Url.{Platform}
use roam_content_engine.Html.Markup.{is_void, is_active}
use roam_content_engine.Html.Serializer.{closed, open_tag, serialize_node, serialize_nodes}

-- No element that is written is one of active content.
unfoldable mutual
  pub is_passive : HtmlNode → Bool
  is_passive (HtmlNode.text s) = true
  is_passive (HtmlNode.element node children) =
      not (is_active node.tag)
      && (elim (is_void node.tag) [ true ↦ true | false ↦ are_passive children ])

  pub are_passive : HtmlNodes → Bool
  are_passive HtmlNodes.nil = true
  are_passive (HtmlNodes.cons node rest) = is_passive node && are_passive rest

both : (a b : Bool) → a ≡ true → b ≡ true → (a && b) ≡ true
both a b one other = ground arith

refuse_if_passed :
    (test : Bool) (message : String) (u : Unit {0})
    → refuse_if test message ≡ Checked.passed u
    → not test ≡ true
refuse_if_passed true message u ends = ground arith
refuse_if_passed false message u ends = refl

module _ (p : Platform) (locale_before : String → String → Bool) (language : String) where
  open_tag_passive :
      (node : HtmlElementBase) (ids : List String) (opened : String × List String)
      → open_tag p locale_before language node ids ≡ Checked.passed opened
      → not (is_active node.tag) ≡ true
  unfolding open_tag
  open_tag_passive node ids opened ends =
      let (u, tested, _) =
        passed_parts (refuse_if (is_active node.tag) "Active content elements are not allowed.") _
          opened ends in
      refuse_if_passed (is_active node.tag) _ u tested

  closed_passive :
      (void : Bool) (tag opening : String) (ids : List String)
      (children : Checked (String × List String)) (written : String × List String) (passive : Bool)
      → closed void tag opening ids children ≡ Checked.passed written
      → ((inner : String × List String) → children ≡ Checked.passed inner → passive ≡ true)
      → (elim void [ true ↦ true | false ↦ passive ]) ≡ true
  closed_passive true tag opening ids children written passive ends inside = refl
  closed_passive false tag opening ids children written passive ends inside =
      let (inner, reads, _) = passed_parts children _ written ends in inside inner reads

  mutual
    unfolding serialize_node is_passive open_tag

    pub serialize_node_passive :
        (node : HtmlNode) (ids : List String) (written : String × List String)
        → serialize_node p locale_before language node ids ≡ Checked.passed written
        → is_passive node ≡ true
    serialize_node_passive (HtmlNode.text s) ids written ends = refl
    serialize_node_passive (HtmlNode.element node children) ids written ends =
        let (opened, opens, last) =
          passed_parts (open_tag p locale_before language node ids) _ written ends in
        both _ _ (open_tag_passive node ids opened opens) (
          closed_passive (is_void node.tag) node.tag opened.0 opened.1
            (serialize_nodes p locale_before language children opened.1) written
            (are_passive children) last
            (λ inner reads. serialize_nodes_passive children opened.1 inner reads))

    pub serialize_nodes_passive :
        (nodes : HtmlNodes) (ids : List String) (written : String × List String)
        → serialize_nodes p locale_before language nodes ids ≡ Checked.passed written
        → are_passive nodes ≡ true
    serialize_nodes_passive HtmlNodes.nil ids written ends = refl
    serialize_nodes_passive (HtmlNodes.cons node rest) ids written ends =
        let (first, writes, ends1) =
          passed_parts (serialize_node p locale_before language node ids) _ written ends in
        let (others, others_write, _) =
          passed_parts (serialize_nodes p locale_before language rest first.1) _ written ends1 in
        both _ _ (serialize_node_passive node ids first writes)
          (serialize_nodes_passive rest first.1 others others_write)
