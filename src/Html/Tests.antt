-- ===== src/Html/Tests.antt =====
-- The theorems on HTML, applied to a document.
use roam_content_engine.Prelude.{
  String, All, Option, none, some, Bool, true, false, List, [], ◌∷◌, ◌≡◌, refl, str_eq,
  if◌then◌else◌,
}
use roam_content_engine.Html.Types.{
  HtmlAttributes, HtmlElementBase, HtmlNode, HtmlNodes, HtmlDocument,
}
use roam_content_engine.Html.Checked.{Checked}
use roam_content_engine.Html.Escaping.Reading.{codes}
use roam_content_engine.Html.Attributes.{OutputAttributeMap, serialize_attributes}
use roam_content_engine.Html.Attributes.Reading.{Place, read_attributes}
use roam_content_engine.Html.Attributes.ReadBack.{attributes_in, serialize_attributes-read}
use roam_content_engine.Html.Url.{Platform}
use roam_content_engine.Html.Serializer.Ids.{are_distinct}
use roam_content_engine.Html.Markup.{attributes_of}
use roam_content_engine.Html.Document.{
  SerializedHtmlDocument, is_nil, extract_main_nodes, serialize_document_parts,
}
use roam_content_engine.Html.Document.Accepted.{IsPassive, document_ids, document_written}

abbrev an_image : OutputAttributeMap
an_image key =
    if str_eq key "alt"
    then some "a \"cup\" & <b>"
    else if str_eq key "src"
    then some "asset:cup"
    else none

serialize_attributes-read_example :
    (text : String) × (serialize_attributes an_image ≡ Checked.passed text)
    × (read_attributes Place.gap text
        ≡ ("src", codes "asset:cup") ∷ ("alt", codes "a \"cup\" & <b>") ∷ [])
unfolding attributes_in
serialize_attributes-read_example = serialize_attributes-read an_image

abbrev no_attributes : HtmlAttributes
no_attributes = record {
  href = none;
  src = none;
  alt = none;
  title = none;
  target = none;
  rel = none;
  aria_described_by = none;
  aria_labelled_by = none;
  scope = none;
  colspan = none;
  rowspan = none;
  loading = none;
  decoding = none;
  referrerpolicy = none;
  data_publication_block = none;
  data_reference_id = none;
  data_citation_id = none;
  data_footnote_id = none;
}

abbrev an_element : String → String → Option String → HtmlElementBase
an_element tag id href = record {
  id = some id;
  tag = tag;
  attributes = record no_attributes { href = href };
  class_list = [];
  aria_label = none;
  role = none;
  style_tokens = [];
}

-- a browser's reading of every address as one of a host
abbrev a_platform : Platform
a_platform = record {
  parse_url = λ address. some record {
    username = "";
    password = "";
    protocol = "https:";
    hostname = address;
    port = "";
    pathname = "/";
  };
  decode_uri_component = λ s. some s;
  to_lower_case = λ s. s;
  number = λ s. none;
}

abbrev a_locale : String → String → Bool
a_locale a b = true

abbrev main_children : HtmlNodes
main_children =
    HtmlNodes.cons
      (HtmlNode.element (an_element "a" "link" (some "https://example.org/x?a=1&b=2"))
        (HtmlNodes.cons (HtmlNode.text "1 < 2") HtmlNodes.nil))
      HtmlNodes.nil

abbrev a_document : HtmlDocument
a_document = record {
  head = record { title = "A guide"; lang = "en"; metadata = [] };
  sections =
      (record {
        elements =
            HtmlNodes.cons (HtmlNode.element (an_element "main" "content" none) main_children)
              HtmlNodes.nil;
      })
      ∷ [];
}

abbrev its_parts : SerializedHtmlDocument
its_parts = record {
  doctype = "<!doctype html>";
  lang = "en";
  title = "A guide";
  metadata = [];
  body_html =
      "<main id=\"content\" class=\"publication-main\"><a id=\"link\" href=\"https://example.org/x?a=1&amp;b=2\">1 &lt; 2</a></main>";
}

its_parts_written :
    serialize_document_parts a_platform a_locale a_document ≡ Checked.passed its_parts
unfolding serialize_document_parts
its_parts_written = refl

document_written_example :
    ((main : HtmlNodes) × (extract_main_nodes a_document.sections ≡ main ∷ [])
      × (is_nil main ≡ false))
    × (are_distinct (document_ids a_document.sections []) ≡ true)
    × All IsPassive a_document.sections
document_written_example =
    document_written a_platform a_locale a_document its_parts its_parts_written

abbrev a_link : HtmlElementBase
a_link = an_element "a" "link" (some " https://example.org/ ")

abbrev link_attributes : OutputAttributeMap × List String
link_attributes =
    (attributes_of a_platform a_locale a_link "en" (some "https://example.org/") none, "link" ∷ [])
