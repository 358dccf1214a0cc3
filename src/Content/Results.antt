-- ===== src/Content/Results.antt =====
-- `transcriptProcessingResultSchema` of src/domain/content-jobs/types.ts: what the job's result is
-- when it is read from a JSON value, and how it is written.
pub mod RoundTrip
pub mod Parsed
use roam_content_engine.Prelude.{
  ℕ, String, Bool, true, false, Option, none, some, List, [], ◌∷◌, ◌≡◌, refl, ◌&&◌, not, is_empty,
  str_eq, if◌then◌else◌,
}
use roam_content_engine.Json.{
  Json, object, text, number, Fields, end, field, lookup, optional_field, has_only, as_text,
  as_natural, optionally, ◌>>=◌,
}
use roam_content_engine.Content.Types.{TranscriptProcessingResult, is_prefixed_id}

-- What the job code relies on that is not in it: zod's test of an ISO date, `toISOString`, SHA-256
-- as hexadecimal digits, and the schemas of the nested documents, each the value that it parses to.
pub record Externals : Type 0 where
  pub is_datetime : String → Bool
  pub iso : ℕ → String
  pub sha256 : String → String
  pub ai_schema : Json → Option Json
  pub publication_schema : Json → Option Json
  pub html_document_schema : Json → Option Json
  pub render_artifact_schema : Json → Option Json

abbrev pub result_keys : List String
result_keys =
    "schemaVersion" ∷ "sourceVersionId" ∷ "contentHash" ∷ "wordCount" ∷ "characterCount"
    ∷ "paragraphCount" ∷ "lineCount" ∷ "processedAt" ∷ "ai" ∷ "publication" ∷ "htmlDocument"
    ∷ "renderArtifact" ∷ []

abbrev pub not_empty : String → Bool
not_empty s = not (is_empty s)

module _ (x : Externals) where
  unfoldable pub parse_fields : Fields → Option TranscriptProcessingResult
  unfolding is_prefixed_id
  parse_fields fs = do
    _ ← lookup "schemaVersion" fs >>= as_text (λ s. str_eq s "1.0")
    source_version_id ← lookup "sourceVersionId" fs >>= as_text (λ s. is_prefixed_id s "srcver")
    content_hash ← lookup "contentHash" fs >>= as_text not_empty
    word_count ← lookup "wordCount" fs >>= as_natural
    character_count ← lookup "characterCount" fs >>= as_natural
    paragraph_count ← lookup "paragraphCount" fs >>= as_natural
    line_count ← lookup "lineCount" fs >>= as_natural
    processed_at ← lookup "processedAt" fs >>= as_text x.is_datetime
    ai ← optionally x.ai_schema (lookup "ai" fs)
    publication ← optionally x.publication_schema (lookup "publication" fs)
    html_document ← optionally x.html_document_schema (lookup "htmlDocument" fs)
    render_artifact ← optionally x.render_artifact_schema (lookup "renderArtifact" fs)
    some (record {
      source_version_id = source_version_id;
      content_hash = content_hash;
      word_count = word_count;
      character_count = character_count;
      paragraph_count = paragraph_count;
      line_count = line_count;
      processed_at = processed_at;
      ai = ai;
      publication = publication;
      html_document = html_document;
      render_artifact = render_artifact;
    })

  -- `transcriptProcessingResultSchema.safeParse(value)`
  unfoldable pub parse_result : Json → Option TranscriptProcessingResult
  unfolding parse_fields
  parse_result (object fs) = if has_only result_keys fs then parse_fields fs else none
  parse_result _ = none

-- the parsed result as the driver writes it into the column
unfoldable pub result_json : TranscriptProcessingResult → Json
result_json r = object (
    field "schemaVersion" (text "1.0") (
      field "sourceVersionId" (text r.source_version_id) (
        field "contentHash" (text r.content_hash) (
          field "wordCount" (number r.word_count) (
            field "characterCount" (number r.character_count) (
              field "paragraphCount" (number r.paragraph_count) (
                field "lineCount" (number r.line_count) (
                  field "processedAt" (text r.processed_at) (
                    optional_field "ai" r.ai (
                      optional_field "publication" r.publication (
                        optional_field "htmlDocument" r.html_document
                          (optional_field "renderArtifact" r.render_artifact end))))))))))))
