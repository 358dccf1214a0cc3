-- ===== src/Html/Document/Accepted.antt =====
-- What is known of a document that is written.
use roam_content_engine.Prelude.{
  String, Bool, true, false, List, [], ◌∷◌, ◌≡◌, refl, All, subst, arith,
}
use roam_content_engine.Html.Types.{HtmlNodes, HtmlSection, HtmlDocument}
use roam_content_engine.Html.Checked.{Checked, passed_parts, passed_injective}
use roam_content_engine.Html.Url.{Platform}
use roam_content_engine.Html.Serializer.{serialize_nodes}
use roam_content_engine.Html.Serializer.Ids.{
  are_distinct, all_ids_onto, AreIds, serialize_nodes-AreIds,
}
use roam_content_engine.Html.Serializer.Passive.{are_passive, serialize_nodes_passive}
use roam_content_engine.Html.Document.{
  SerializedHtmlDocument, is_nil, extract_main_nodes, check_mains, serialize_sections,
  serialize_document_parts,
}

-- The ids of the elements that are written, the last one first, in front of others.
unfoldable pub document_ids : List HtmlSection → List String → List String
unfolding all_ids_onto
document_ids [] ids = ids
document_ids (s ∷ rest) ids = document_ids rest (all_ids_onto s.elements ids)

check_mains_passed :
    (mains : List HtmlNodes) (u : Unit {0})
    → check_mains mains ≡ Checked.passed u
    → (main : HtmlNodes) × (mains ≡ main ∷ []) × (is_nil main ≡ false)
check_mains_passed (main ∷ []) u ends = (main, refl, ground arith)
check_mains_passed [] u ends = ground arith
check_mains_passed (a ∷ b ∷ rest) u ends = ground arith

-- A section of which no element that is written is one of active content.
abbrev pub IsPassive : HtmlSection → Type 0
IsPassive s = are_passive s.elements ≡ true

module _ (p : Platform) (locale_before : String → String → Bool) where
  serialize_sections-AreIds :
      (language : String) (sections : List HtmlSection) (ids : List String)
      (written : String × List String)
      → serialize_sections p locale_before language sections ids ≡ Checked.passed written
      → are_distinct ids ≡ true
      → AreIds written.1 (document_ids sections ids)
  unfolding serialize_sections document_ids
  serialize_sections-AreIds language [] ids written ends ok =
      subst (λ w. AreIds w.1 ids) (passed_injective _ written ends) (refl, ok)
  serialize_sections-AreIds language (s ∷ rest) ids written ends ok =
      let (first, writes, ends1) =
        passed_parts (serialize_nodes p locale_before language s.elements ids) _ written ends in
      let (others, others_write, last) =
        passed_parts (serialize_sections p locale_before language rest first.1) _ written ends1 in
      let (same, distinct) =
        serialize_nodes-AreIds p locale_before language s.elements ids first writes ok in
      subst (λ i. AreIds written.1 (document_ids rest i)) same
        (subst (λ w. AreIds w.1 (document_ids rest first.1)) (passed_injective _ written last)
          (serialize_sections-AreIds language rest first.1 others others_write distinct))

  serialize_sections-IsPassive :
      (language : String) (sections : List HtmlSection) (ids : List String)
      (written : String × List String)
      → serialize_sections p locale_before language sections ids ≡ Checked.passed written
      → All IsPassive sections
  unfolding serialize_sections
  serialize_sections-IsPassive language [] ids written ends = tt
  serialize_sections-IsPassive language (s ∷ rest) ids written ends =
      let (first, writes, ends1) =
        passed_parts (serialize_nodes p locale_before language s.elements ids) _ written ends in
      let (others, others_write, _) =
        passed_parts (serialize_sections p locale_before language rest first.1) _ written ends1 in
      (
        serialize_nodes_passive p locale_before language s.elements ids first writes,
        serialize_sections-IsPassive language rest first.1 others others_write,
      )

  -- A document that is written has exactly one main element, which has children, no two of the
  -- elements that are written have the same id, and none of them is one of active content.
  pub document_written :
      (document : HtmlDocument) (parts : SerializedHtmlDocument)
      → serialize_document_parts p locale_before document ≡ Checked.passed parts
      → ((main : HtmlNodes) × (extract_main_nodes document.sections ≡ main ∷ [])
          × (is_nil main ≡ false))
        × (are_distinct (document_ids document.sections []) ≡ true)
        × All IsPassive document.sections
  unfolding serialize_document_parts
  document_written document parts ends =
      let (u, checked, ends1) =
        passed_parts (check_mains (extract_main_nodes document.sections)) _ parts ends in
      let (body, writes, _) =
        passed_parts (serialize_sections p locale_before document.head.lang document.sections []) _
          parts ends1 in
      let (same, distinct) =
        serialize_sections-AreIds document.head.lang document.sections [] body writes refl in
      (
        check_mains_passed (extract_main_nodes document.sections) u checked,
        subst (λ i. are_distinct i ≡ true) same distinct,
        serialize_sections-IsPassive document.head.lang document.sections [] body writes,
      )
