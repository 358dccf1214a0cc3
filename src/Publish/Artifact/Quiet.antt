-- ===== src/Publish/Artifact/Quiet.antt =====
-- The checks of an artifact leave the tables alone.
use roam_content_engine.Prelude.{Bool, true, false, refl, if◌then◌else◌, not, ◌==◌, str_eq}
use Prim.Native.String.{len}
use roam_content_engine.Db.{Db, now}
use roam_content_engine.Db.Moves.{Quiet, Quiet-pure, Quiet-throw, Quiet-bind}
use roam_content_engine.Publish.Types.{PublishDownloadMetadata, Tables, SourceArtifactSnapshot}
use roam_content_engine.Publish.Artifact.{
  Externals, is_snapshot, is_source, is_checksum, is_download, StyledHtmlSource, source_of,
  parse_snapshot, validate_source, sanitize_download,
}

pub Quiet-now : Quiet {T = Tables} now
unfolding now
Quiet-now = record { at = λ s. refl }

pub Quiet-tested {ℓ} :
    {A : Type ℓ} (b : Bool) (x y : Db Tables A) → Quiet x → Quiet y → Quiet (if b then x else y)
Quiet-tested true x y p q = p
Quiet-tested false x y p q = q

Quiet-parse_snapshot : (x : Externals) (a : SourceArtifactSnapshot) → Quiet (parse_snapshot x a)
unfolding parse_snapshot
Quiet-parse_snapshot x a = Quiet-tested (is_snapshot a) _ _ (Quiet-pure _) (Quiet-throw _)

Quiet-validate_source : (x : Externals) (a : StyledHtmlSource) → Quiet (validate_source x a)
unfolding validate_source
Quiet-validate_source x a = Quiet-tested (not (is_source x a)) _ _ (Quiet-throw _) (
    Quiet-tested (not (is_checksum a.checksum_sha256)) _ _ (Quiet-throw _) (
      Quiet-tested (not (len a.payload == a.byte_size)) _ _ (Quiet-throw _) (
        Quiet-tested (not (str_eq (x.sha256_hex a.payload) a.checksum_sha256)) _ _ (Quiet-throw _)
          (Quiet-pure _))))

pub Quiet-source_of : (x : Externals) (a : SourceArtifactSnapshot) → Quiet (source_of x a)
unfolding source_of
Quiet-source_of x a = Quiet-bind _ _ (Quiet-parse_snapshot x a) (λ snapshot.
    Quiet-bind _ _ Quiet-now
      (λ at. Quiet-bind _ _ (Quiet-validate_source x _) (λ source. Quiet-validate_source x source)))

pub Quiet-sanitize_download :
    (x : Externals) (d : PublishDownloadMetadata) → Quiet (sanitize_download x d)
unfolding sanitize_download
Quiet-sanitize_download x d = Quiet-tested (is_download x d) _ _ (Quiet-pure _) (Quiet-throw _)
