-- ===== src/Content/Results/Parsed.antt =====
-- What is known of a result that the schema accepts.
use roam_content_engine.Prelude.{Option, none, some}
use roam_content_engine.Json.{Json}
use roam_content_engine.Content.Types.{TranscriptProcessingResult}
use roam_content_engine.Content.Results.{Externals}
use roam_content_engine.Content.Results.RoundTrip.{Stable}

result_or :
    TranscriptProcessingResult → Option TranscriptProcessingResult → TranscriptProcessingResult
result_or d none = d
result_or d (some r) = r

module _ (x : Externals) where
  -- Each of the result's nested documents is one that its schema reads as it is.
  pub record AreStable (r : TranscriptProcessingResult) : Type 0 where
    pub ai : Stable x.ai_schema r.ai
    pub publication : Stable x.publication_schema r.publication
    pub html_document : Stable x.html_document_schema r.html_document
    pub render_artifact : Stable x.render_artifact_schema r.render_artifact
