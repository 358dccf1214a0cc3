-- ===== src/Html/Types.antt =====
-- src/domain/publications/html-types.ts: what the serializer reads of a document.
use roam_content_engine.Prelude.{String, Option, List}

pub record HtmlAttributes : Type 0 where
  pub href : Option String
  pub src : Option String
  pub alt : Option String
  pub title : Option String
  pub target : Option String
  pub rel : Option String
  pub aria_described_by : Option String
  pub aria_labelled_by : Option String
  pub scope : Option String
  pub colspan : Option String
  pub rowspan : Option String
  pub loading : Option String
  pub decoding : Option String
  pub referrerpolicy : Option String
  pub data_publication_block : Option String
  pub data_reference_id : Option String
  pub data_citation_id : Option String
  pub data_footnote_id : Option String

pub record HtmlStyleToken : Type 0 where
  pub category : String
  pub value : String

-- An element without its children.
pub record HtmlElementBase : Type 0 where
  pub id : Option String
  pub tag : String
  pub attributes : HtmlAttributes
  pub class_list : List String
  pub aria_label : Option String
  pub role : Option String
  pub style_tokens : List HtmlStyleToken

mutual
  pub data HtmlNode : Type 0 where
    text : String → HtmlNode
    element : HtmlElementBase → HtmlNodes → HtmlNode

  pub data HtmlNodes : Type 0 where
    nil : HtmlNodes
    cons : HtmlNode → HtmlNodes → HtmlNodes

pub record HtmlHead : Type 0 where
  pub title : String
  pub lang : String
  pub metadata : List (String × String)

-- A section's elements; the schema of documents lets no text stand among them.
pub record HtmlSection : Type 0 where
  pub elements : HtmlNodes

pub record HtmlDocument : Type 0 where
  pub head : HtmlHead
  pub sections : List HtmlSection
