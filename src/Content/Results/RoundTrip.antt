-- ===== src/Content/Results/RoundTrip.antt =====
-- A result that is written and read back.
use roam_content_engine.Prelude.{
  String, true, false, Option, none, some, List, ◌≡◌, refl, any, str_eq, is_empty, eq_refl,
}
use roam_content_engine.Json.{Json, Fields, lookup, optional_field, has_only, optionally, end}
use roam_content_engine.Content.Types.{TranscriptProcessingResult, is_prefixed_id}
use roam_content_engine.Content.Results.{Externals, parse_result, result_json, result_keys}

lookup-optional_field :
    (k : String) (o : Option Json) (rest : Fields)
    → lookup k rest ≡ none
    → lookup k (optional_field k o rest) ≡ o
lookup-optional_field k none rest e = e
lookup-optional_field k (some v) rest e = rw (eq_refl k) refl

lookup-optional_other :
    (k j : String) (o : Option Json) (rest : Fields)
    → str_eq j k ≡ false
    → lookup k (optional_field j o rest) ≡ lookup k rest
lookup-optional_other k j none rest e = refl
lookup-optional_other k j (some v) rest e = rw e refl

has_only-optional_field :
    (keys : List String) (k : String) (o : Option Json) (rest : Fields)
    → any (str_eq k) keys ≡ true
    → has_only keys (optional_field k o rest) ≡ has_only keys rest
has_only-optional_field keys k none rest e = refl
has_only-optional_field keys k (some v) rest e = rw e refl

-- a nested document that its schema reads as it is, or none
abbrev pub Stable : (Json → Option Json) → Option Json → Type 0
Stable schema none = Unit {0}
Stable schema (some v) = schema v ≡ some v

optionally-Stable :
    (schema : Json → Option Json) (o : Option Json) → Stable schema o → optionally schema o ≡ some o
optionally-Stable schema none h = refl
optionally-Stable schema (some v) h = rw h refl

-- what the schema asks of a result
pub record IsResult (x : Externals) (r : TranscriptProcessingResult) : Type 0 where
  pub names_source : is_prefixed_id r.source_version_id "srcver" ≡ true
  pub has_hash : is_empty r.content_hash ≡ false
  pub has_date : x.is_datetime r.processed_at ≡ true
  pub ai_stable : Stable x.ai_schema r.ai
  pub publication_stable : Stable x.publication_schema r.publication
  pub html_document_stable : Stable x.html_document_schema r.html_document
  pub render_artifact_stable : Stable x.render_artifact_schema r.render_artifact

module _ (ai publication html_document render_artifact : Option Json) where
  -- the keys that may be left out
  abbrev nested : Fields
  nested = optional_field "ai" ai (
      optional_field "publication" publication (
        optional_field "htmlDocument" html_document
          (optional_field "renderArtifact" render_artifact end)))

  nested_only : has_only result_keys nested ≡ true
  nested_only =
      rw
        (
          has_only-optional_field result_keys "ai" ai _ refl,
          has_only-optional_field result_keys "publication" publication _ refl,
          has_only-optional_field result_keys "htmlDocument" html_document _ refl,
          has_only-optional_field result_keys "renderArtifact" render_artifact _ refl,
        )
        refl

  lookup_render_artifact : lookup "renderArtifact" nested ≡ render_artifact
  lookup_render_artifact =
      rw
        (
          lookup-optional_other "renderArtifact" "ai" ai _ refl,
          lookup-optional_other "renderArtifact" "publication" publication _ refl,
          lookup-optional_other "renderArtifact" "htmlDocument" html_document _ refl,
        )
        (lookup-optional_field "renderArtifact" render_artifact end refl)

  lookup_html_document : lookup "htmlDocument" nested ≡ html_document
  lookup_html_document =
      rw
        (
          lookup-optional_other "htmlDocument" "ai" ai _ refl,
          lookup-optional_other "htmlDocument" "publication" publication _ refl,
        )
        (lookup-optional_field "htmlDocument" html_document _
          (lookup-optional_other "htmlDocument" "renderArtifact" render_artifact _ refl))

  lookup_publication : lookup "publication" nested ≡ publication
  lookup_publication = rw (lookup-optional_other "publication" "ai" ai _ refl) (
      lookup-optional_field "publication" publication _ (
        rw (lookup-optional_other "publication" "htmlDocument" html_document _ refl)
          (lookup-optional_other "publication" "renderArtifact" render_artifact _ refl)))

  lookup_ai : lookup "ai" nested ≡ ai
  lookup_ai = lookup-optional_field "ai" ai _ (
      rw
        (
          lookup-optional_other "ai" "publication" publication _ refl,
          lookup-optional_other "ai" "htmlDocument" html_document _ refl,
        )
        (lookup-optional_other "ai" "renderArtifact" render_artifact _ refl))

-- A valid result, whose nested documents their schemas read as they are, is read back from its
-- JSON form unchanged.
pub parse_result-result_json :
    (x : Externals) (r : TranscriptProcessingResult)
    → IsResult x r
    → parse_result x (result_json r) ≡ some r
unfolding parse_result result_json
parse_result-result_json x r h =
    rw
      (
        nested_only r.ai r.publication r.html_document r.render_artifact,
        h.names_source,
        h.has_hash,
        h.has_date,
        lookup_ai r.ai r.publication r.html_document r.render_artifact,
        optionally-Stable x.ai_schema r.ai h.ai_stable,
        lookup_publication r.ai r.publication r.html_document r.render_artifact,
        optionally-Stable x.publication_schema r.publication h.publication_stable,
        lookup_html_document r.ai r.publication r.html_document r.render_artifact,
        optionally-Stable x.html_document_schema r.html_document h.html_document_stable,
        lookup_render_artifact r.ai r.publication r.html_document r.render_artifact,
        optionally-Stable x.render_artifact_schema r.render_artifact h.render_artifact_stable,
      )
      refl
