-- ===== src/Publish/Artifact.antt =====
-- What is checked of a stored artifact before it is submitted: publishSourceArtifactSnapshotSchema
-- (src/domain/publish-jobs/types.ts) and the validator of
-- src/infrastructure/publish-engine/publish-engine-artifact-validator.ts; and the bounds that the
-- schemas of that file put on metadata and downloads.
-- `sha256_hex` is the digest of node:crypto, and `zod_message` the text that zod gives its error.
pub mod Quiet
use Prim.Native.Char.{code}
use Prim.Native.String.{len}
use roam_content_engine.Prelude.{
  ℕ, String, Bool, true, false, Option, none, some, ◌&&◌, ◌||◌, leb, ltb, ◌==◌, if◌then◌else◌,
  str_eq, trim, utf16_length, is_none, not,
}
use roam_content_engine.Errors.{Thrown, validation}
use roam_content_engine.Db.{Db, ◌>>=◌, pure, throw, now}
use roam_content_engine.Publish.Types.{
  SourceArtifactSnapshot, PublicationMetadata, PublishDownloadMetadata, Tables,
}

-- node:crypto, zod and the URL and date formats of zod, as the code calls them
pub record Externals : Type 0 where
  pub sha256_hex : String → String
  pub zod_message : String
  pub is_url : String → Bool
  pub is_datetime : String → Bool

abbrev pub publish_artifact_max_bytes : ℕ
publish_artifact_max_bytes = 1_048_576

abbrev is_lower_hex : ℕ → Bool
is_lower_hex c = (leb b'a' c && leb c b'f') || (leb b'0' c && leb c b'9')

all_lower_hex : String → Bool
all_lower_hex String.[] = true
all_lower_hex (String.◌∷◌ c s) = is_lower_hex (code c) && all_lower_hex s

-- /^[a-f0-9]{64}$/
unfoldable pub is_checksum : String → Bool
unfolding all_lower_hex
is_checksum s = utf16_length s == 64 && all_lower_hex s

-- `z.string().trim().min(low).max(high)` on the trimmed text
abbrev pub is_within : ℕ → ℕ → String → Bool
is_within low high s = leb low (utf16_length s) && leb (utf16_length s) high

unfoldable pub is_snapshot : SourceArtifactSnapshot → Bool
unfolding is_checksum utf16_length trim
is_snapshot a =
    is_within 1 120 (trim a.artifact_id)
    && str_eq a.payload_representation "styled-html"
    && str_eq a.mime_type "text/html; charset=utf-8"
    && str_eq a.file_extension ".html"
    && is_within 1 publish_artifact_max_bytes a.payload
    && ltb 0 a.byte_size
    && leb a.byte_size publish_artifact_max_bytes
    && is_checksum a.checksum_sha256

-- PublishEngineStyledHtmlSource, less its three literal fields
pub record StyledHtmlSource : Type 0 where
  pub payload : String
  pub byte_size : ℕ
  pub checksum_sha256 : String

module _ (x : Externals) where
  -- `publishSourceArtifactSnapshotSchema.parse(…)`, which throws an Error of zod
  unfoldable pub parse_snapshot : SourceArtifactSnapshot → Db Tables SourceArtifactSnapshot
  parse_snapshot a =
      if is_snapshot a
      then pure (record a { artifact_id = trim a.artifact_id })
      else throw (Thrown.plain_error x.zod_message)

  -- publishEngineStyledHtmlSourceSchema
  unfoldable pub is_source : StyledHtmlSource → Bool
  unfolding is_checksum utf16_length
  is_source s = ltb 0 (utf16_length s.payload) && is_checksum s.checksum_sha256

  -- `validatePublishEngineStyledHtmlSource`; `len` counts the bytes of the UTF-8 form
  unfoldable pub validate_source : StyledHtmlSource → Db Tables StyledHtmlSource
  unfolding is_source
  validate_source s =
      if not (is_source s)
      then throw (Thrown.artifact_invalid "Styled HTML source artifact is invalid.")
      else if not (is_checksum s.checksum_sha256)
      then throw (
          Thrown.artifact_invalid
            "Styled HTML artifact checksum must be a lowercase SHA-256 hex string.")
      else if not (len s.payload == s.byte_size)
      then throw (
          Thrown.artifact_invalid
            "Styled HTML source artifact byte size does not match UTF-8 payload bytes.")
      else if not (str_eq (x.sha256_hex s.payload) s.checksum_sha256)
      then throw (
          Thrown.artifact_invalid
            "Styled HTML source artifact checksum does not match UTF-8 payload bytes.")
      else pure s

  -- The source that the executor submits: the snapshot is parsed, wrapped as a render artifact,
  -- and validated as it is unwrapped (`createPublishEngineStyledHtmlSourceFromRenderArtifact`,
  -- whose own tests of the kind, the MIME type and the extension the parsed snapshot meets) and
  -- once more. The clock is read for the artifact's `createdAt`, which is not submitted.
  unfoldable pub source_of : SourceArtifactSnapshot → Db Tables StyledHtmlSource
  source_of a = do
    snapshot ← parse_snapshot a
    _ ← now
    source ← validate_source (record {
      payload = snapshot.payload;
      byte_size = snapshot.byte_size;
      checksum_sha256 = snapshot.checksum_sha256;
    })
    validate_source source

  abbrev optional : (String → Bool) → Option String → Bool
  optional p none = true
  optional p (some s) = p s

  abbrev required : (String → Bool) → Option String → Bool
  required p none = false
  required p (some s) = p s

  abbrev positive : Option ℕ → Bool
  positive none = true
  positive (some n) = ltb 0 n

  abbrev trimmed : Option String → Option String
  trimmed none = none
  trimmed (some s) = some (trim s)

  -- publishStandardMetadataBoundedSchema (strict: it knows no `audience`)
  unfoldable pub parse_standard : PublicationMetadata → Option PublicationMetadata
  parse_standard m =
      if optional (λ s. is_within 1 120 (trim s)) m.publication_id
        && optional (λ s. is_within 1 400 (trim s)) m.title
        && optional (λ s. is_within 2 16 (trim s)) m.language
        && optional (λ s. is_within 1 80 (trim s)) m.theme
        && is_none m.audience
      then some (record {
        publication_id = trimmed m.publication_id;
        title = trimmed m.title;
        language = trimmed m.language;
        theme = trimmed m.theme;
        audience = none;
      })
      else none

  -- publishCtaMetadataBoundedSchema
  unfoldable pub parse_cta : PublicationMetadata → Option PublicationMetadata
  parse_cta m =
      if required (λ s. is_within 1 120 (trim s)) m.publication_id
        && required (λ s. is_within 1 400 (trim s)) m.title
        && required (λ s. is_within 2 16 (trim s)) m.language
        && required (λ s. is_within 1 80 (trim s)) m.theme
        && optional (λ s. is_within 1 120 (trim s)) m.audience
      then some (record {
        publication_id = trimmed m.publication_id;
        title = trimmed m.title;
        language = trimmed m.language;
        theme = trimmed m.theme;
        audience = trimmed m.audience;
      })
      else none

  -- publishDownloadMetadataSchema
  unfoldable pub is_download : PublishDownloadMetadata → Bool
  is_download d =
      is_within 1 512 (trim d.file_name)
      && is_within 1 200 (trim d.mime_type)
      && positive d.byte_size
      && optional is_checksum d.checksum_sha256
      && optional x.is_url d.download_url
      && optional x.is_datetime d.expires_at

  -- `sanitizeDownloadMetadata` of the executor
  unfoldable pub sanitize_download : PublishDownloadMetadata → Db Tables PublishDownloadMetadata
  unfolding is_download
  sanitize_download d =
      if is_download d
      then pure (record d { file_name = trim d.file_name; mime_type = trim d.mime_type })
      else throw (validation "Publish download metadata is invalid.")
