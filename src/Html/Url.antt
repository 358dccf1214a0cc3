-- ===== src/Html/Url.antt =====
-- src/platform/security/url-safety.ts
use Prim.Native.Char.{code}
use roam_content_engine.Prelude.{
  ℕ, String, Option, none, some, Bool, true, false, ◌&&◌, ◌||◌, not, List, [], ◌∷◌, ◌==◌, coalesce,
  if◌then◌else◌, any, leb, trim, trim_start, is_empty, count, starts_with, str_eq, holds,
}
use roam_content_engine.Html.Checked.{Checked, ◌>>=◌, refuse_if}
pub mod Safe

-- What the code reads of a `URL`.
pub record Url : Type 0 where
  pub username : String
  pub password : String
  pub protocol : String
  pub hostname : String
  pub port : String
  pub pathname : String

-- The platform: `new URL`, which may throw; `decodeURIComponent`, which may throw; `toLowerCase`; and
-- `Number` of a text, if it is a natural number.
pub record Platform : Type 0 where
  pub parse_url : String → Option Url
  pub decode_uri_component : String → Option String
  pub to_lower_case : String → String
  pub number : String → Option ℕ

-- CONTROL_CHARACTERS.test
unfoldable pub has_control_character : String → Bool
has_control_character String.[] = false
has_control_character (String.◌∷◌ c s) =
    leb (code c) 0x1f || code c == 0x7f || has_control_character s

-- what follows a prefix
abbrev pub after : String → String → Option String
after String.[] s = some s
after (String.◌∷◌ _ _) String.[] = none
after (String.◌∷◌ d p) (String.◌∷◌ c s) =
    let rest = after p s in if code c == code d then rest else none

abbrev pub is_ascii_alphanumeric : ℕ → Bool
is_ascii_alphanumeric c =
    (leb b'a' c && leb c b'z') || (leb b'A' c && leb c b'Z') || (leb b'0' c && leb c b'9')

-- `[a-zA-Z0-9_-]*`
abbrev pub is_target_rest : String → Bool
is_target_rest String.[] = true
is_target_rest (String.◌∷◌ c s) =
    (is_ascii_alphanumeric (code c) || code c == b'_' || code c == b'-') && is_target_rest s

-- `/^[a-zA-Z0-9][a-zA-Z0-9_-]{0,119}$/.test(target)`
unfoldable pub is_target : String → Bool
is_target String.[] = false
is_target (String.◌∷◌ c s) = is_ascii_alphanumeric (code c) && leb (count s) 119 && is_target_rest s

-- `value.slice(1)`
abbrev pub slice_from_one : String → String
slice_from_one String.[] = ""
slice_from_one (String.◌∷◌ _ s) = s

-- a scheme, white space and a colon, from the start on
abbrev pub names_scheme : String → String → Bool
names_scheme normalized scheme =
    holds (λ rest. starts_with (trim_start rest) ":") (after scheme normalized)

abbrev pub unsafe_schemes : List String
unsafe_schemes = "javascript" ∷ "data" ∷ "file" ∷ "vbscript" ∷ "blob" ∷ "chrome" ∷ "about" ∷ []

module _ (p : Platform) where
  abbrev pub decode_once_if_possible : String → String
  decode_once_if_possible value = coalesce (p.decode_uri_component value) value

  abbrev pub normalize_for_scheme_check : String → String
  normalize_for_scheme_check raw = p.to_lower_case (decode_once_if_possible (trim raw))

  unfoldable pub has_unsafe_scheme : String → Bool
  unfolding trim trim_start
  has_unsafe_scheme value = any (names_scheme (normalize_for_scheme_check value)) unsafe_schemes

  -- `` `${scheme.toLowerCase()}:` `` starts the address
  abbrev pub has_scheme : String → String → Bool
  has_scheme normalized scheme =
      holds (λ rest. starts_with rest ":") (after (p.to_lower_case scheme) normalized)

  unfoldable pub has_safe_scheme : String → List String → Bool
  unfolding trim
  has_safe_scheme value allowed_schemes =
      any (has_scheme (normalize_for_scheme_check value)) allowed_schemes

  abbrev pub is_http : Url → Bool
  is_http url =
      str_eq (p.to_lower_case url.protocol) "http:"
      || str_eq (p.to_lower_case url.protocol) "https:"

  abbrev pub is_port_valid : String → Bool
  is_port_valid port = is_empty port || holds (λ n. leb 1 n && leb n 65535) (p.number port)

  unfoldable pub validate_parsed_absolute_url : Url → Checked (Unit {0})
  unfolding trim
  validate_parsed_absolute_url url = do
    _ ←
        refuse_if (not (is_empty url.username && is_empty url.password))
          "Embedded URL credentials are not allowed."
    _ ← refuse_if (is_http url && is_empty (trim url.hostname)) "URL host is invalid."
    refuse_if (is_http url && not (is_port_valid url.port)) "URL port is invalid."

  abbrev pub parsed_or_failed : Option Url → Checked Url
  parsed_or_failed none = Checked.failed "URL is malformed."
  parsed_or_failed (some url) = Checked.passed url

  abbrev pub parse_absolute_url : String → Checked Url
  parse_absolute_url value = parsed_or_failed (p.parse_url value)

  unfoldable pub sanitize_url_input : String → Checked String
  unfolding trim has_unsafe_scheme has_control_character
  sanitize_url_input value =
      let normalized = trim value in
      (do
        _ ← refuse_if (is_empty normalized) "URL must not be empty."
        _ ← refuse_if (has_control_character normalized) "URL contains control characters."
        _ ← refuse_if (starts_with normalized "//") "Protocol-relative URLs are not allowed."
        _ ← refuse_if (has_unsafe_scheme normalized) "Unsafe URL scheme is not allowed."
        Checked.passed normalized)

  unfoldable pub assert_safe_external_url : String → List String → Checked String
  unfolding sanitize_url_input has_safe_scheme validate_parsed_absolute_url
  assert_safe_external_url value allowed_schemes = do
    normalized ← sanitize_url_input value
    _ ← refuse_if (not (has_safe_scheme normalized allowed_schemes)) "URL scheme is not allowed."
    parsed ← parse_absolute_url normalized
    _ ← validate_parsed_absolute_url parsed
    Checked.passed normalized

  unfoldable pub is_asset_path_missing : Url → Bool
  unfolding trim
  is_asset_path_missing url =
      str_eq (p.to_lower_case url.protocol) "asset:"
      && is_empty (trim url.hostname)
      && is_empty (trim url.pathname)

  unfoldable pub assert_safe_asset_url : String → List String → Checked String
  unfolding sanitize_url_input has_safe_scheme validate_parsed_absolute_url is_asset_path_missing
  assert_safe_asset_url value allowed_schemes = do
    normalized ← sanitize_url_input value
    _ ←
        refuse_if (not (has_safe_scheme normalized allowed_schemes))
          "Asset URL scheme is not allowed."
    parsed ← parse_absolute_url normalized
    _ ← validate_parsed_absolute_url parsed
    _ ← refuse_if (is_asset_path_missing parsed) "Asset URL path is invalid."
    Checked.passed normalized

  unfoldable pub assert_safe_internal_href : String → Checked String
  unfolding sanitize_url_input is_target
  assert_safe_internal_href value = do
    normalized ← sanitize_url_input value
    _ ← refuse_if (not (starts_with normalized "#")) "Internal href must start with #."
    _ ← refuse_if (not (is_target (slice_from_one normalized))) "Internal href target is invalid."
    Checked.passed normalized
