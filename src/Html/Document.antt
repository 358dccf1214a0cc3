-- ===== src/Html/Document.antt =====
-- Which documents are written: HtmlMarkupSerializer.serializeDocumentParts of
-- src/application/rendering/html-markup-serializer.ts
use roam_content_engine.Prelude.{
  String, Bool, true, false, List, [], ◌∷◌, ◌++◌, ◌≡◌, str_eq, if◌then◌else◌,
}
use roam_content_engine.Html.Types.{HtmlNode, HtmlNodes, HtmlHead, HtmlSection, HtmlDocument}
use roam_content_engine.Html.Checked.{Checked, ◌>>=◌, refuse_if}
use roam_content_engine.Html.Url.{Platform}
use roam_content_engine.Html.Serializer.{followed, serialize_nodes}
pub mod Accepted

pub record SerializedHtmlDocument : Type 0 where
  pub doctype : String
  pub lang : String
  pub title : String
  pub metadata : List (String × String)
  pub body_html : String

abbrev pub is_nil : HtmlNodes → Bool
is_nil HtmlNodes.nil = true
is_nil (HtmlNodes.cons _ _) = false

-- `extractMainNodes`: of each main element of a tree, the children
unfoldable mutual
  pub mains_of : HtmlNode → List HtmlNodes
  mains_of (HtmlNode.text s) = []
  mains_of (HtmlNode.element node children) =
      let inner = mains_of_all children in
      if str_eq node.tag "main" then children ∷ inner else inner

  pub mains_of_all : HtmlNodes → List HtmlNodes
  mains_of_all HtmlNodes.nil = []
  mains_of_all (HtmlNodes.cons node rest) = mains_of node ++ mains_of_all rest

unfoldable pub extract_main_nodes : List HtmlSection → List HtmlNodes
unfolding mains_of
extract_main_nodes [] = []
extract_main_nodes (s ∷ rest) = mains_of_all s.elements ++ extract_main_nodes rest

-- the tests on the main elements
abbrev pub check_mains : List HtmlNodes → Checked (Unit {0})
check_mains (main ∷ []) =
    refuse_if (is_nil main) "Serialized HTML main element must contain meaningful content."
check_mains [] = Checked.failed "Serialized HTML must contain exactly one main element."
check_mains (_ ∷ _ ∷ _) = Checked.failed "Serialized HTML must contain exactly one main element."

module _ (p : Platform) (locale_before : String → String → Bool) where
  -- the body's text, and the ids
  unfoldable pub serialize_sections :
      String → List HtmlSection → List String → Checked (String × List String)
  unfolding serialize_nodes
  serialize_sections language [] ids = Checked.passed ("", ids)
  serialize_sections language (s ∷ rest) ids =
      followed (serialize_nodes p locale_before language s.elements ids)
        (serialize_sections language rest)

  unfoldable pub serialize_document_parts : HtmlDocument → Checked SerializedHtmlDocument
  unfolding serialize_sections extract_main_nodes
  serialize_document_parts document = do
    _ ← check_mains (extract_main_nodes document.sections)
    body ← serialize_sections document.head.lang document.sections []
    Checked.passed record {
      doctype = "<!doctype html>";
      lang = document.head.lang;
      title = document.head.title;
      metadata = document.head.metadata;
      body_html = body.0;
    }
