-- ===== src/Html/Url/Safe.antt =====
-- What an address is that the checks let through.
use roam_content_engine.Prelude.{
  ℕ, ◌<◌, String, Option, none, some, Bool, true, false, List, [], ◌∷◌, ◌≡◌, ◌≢◌, refl, subst, ◌⊎◌,
  inl, inr, Bool-cases, not, ◌||◌, ◌==◌, leb, any, trim, is_empty, starts_with, All, arith, &&-true,
  ◌&&◌,
}
use Prim.Native.Char.{code}
use roam_content_engine.Html.Checked.{
  Checked, refuse_if, passed_parts, passed_injective, refuse_if-passed,
}
use roam_content_engine.Html.Escaping.Reading.{codes}
use roam_content_engine.Html.Url.{
  Url, Platform, has_control_character, names_scheme, normalize_for_scheme_check, unsafe_schemes,
  has_unsafe_scheme, has_safe_scheme, parsed_or_failed, parse_absolute_url,
  validate_parsed_absolute_url, is_asset_path_missing, is_target, slice_from_one,
  sanitize_url_input, assert_safe_external_url, assert_safe_asset_url, assert_safe_internal_href,
}

pub any_none {ℓ} :
    {A : Type ℓ} (f : A → Bool) (xs : List A) → any f xs ≡ false → All (λ x. f x ≡ false) xs
any_none f [] e = tt
any_none f (x ∷ xs) e = elim (Bool-cases (f x)) [
  | inl met ↦ let no : true ≡ false = rw met at e in cc
  | inr free ↦ (free, any_none f xs (rw free at e))
]

-- a code point of no control character
abbrev pub IsPrintable : ℕ → Type 0
IsPrintable c = (31 < c) × (c ≢ 127)

char_parts :
    (c : ℕ) (rest : Bool)
    → (leb c 0x1f || c == 0x7f || rest) ≡ false
    → IsPrintable c × (rest ≡ false)
char_parts c rest e = ground arith

controls_none : (s : String) → has_control_character s ≡ false → All IsPrintable (codes s)
unfolding has_control_character
controls_none String.[] e = tt
controls_none (String.◌∷◌ c s) e =
    let (printable, rest) = char_parts (code c) (has_control_character s) e in
    (printable, controls_none s rest)

module _ (p : Platform) where
  -- What every check asks: there is something, it has no control character, names no host alone, and
  -- no unsafe scheme, however it is encoded and spaced.
  pub record IsSanitized (u : String) : Type 0 where
    pub some_text : is_empty u ≡ false
    pub printable : All IsPrintable (codes u)
    pub own_scheme : starts_with u "//" ≡ false
    pub no_script :
        All (λ scheme. names_scheme (normalize_for_scheme_check p u) scheme ≡ false) unsafe_schemes

  pub sanitize_url_input-IsSanitized :
      (value u : String) → sanitize_url_input p value ≡ Checked.passed u → IsSanitized u
  unfolding sanitize_url_input has_unsafe_scheme
  sanitize_url_input-IsSanitized value u ends =
      let (a, tested1, ends1) = passed_parts (refuse_if (is_empty (trim value)) _) _ u ends in
      let (b, tested2, ends2) =
        passed_parts (refuse_if (has_control_character (trim value)) _) _ u ends1 in
      let (c, tested3, ends3) =
        passed_parts (refuse_if (starts_with (trim value) "//") _) _ u ends2 in
      let (d, tested4, ends4) =
        passed_parts (refuse_if (has_unsafe_scheme p (trim value)) _) _ u ends3 in
      subst IsSanitized (passed_injective (trim value) u ends4) (record {
        some_text = refuse_if-passed _ _ a tested1;
        printable = controls_none (trim value) (refuse_if-passed _ _ b tested2);
        own_scheme = refuse_if-passed _ _ c tested3;
        no_script =
            any_none (names_scheme (normalize_for_scheme_check p (trim value))) unsafe_schemes (
              refuse_if-passed (has_unsafe_scheme p (trim value))
                "Unsafe URL scheme is not allowed." d tested4);
      })

  -- An address elsewhere: it has one of the schemes, the platform reads it, and it tells no user.
  pub record IsAbsolute (schemes : List String) (u : String) : Type 0 where
    pub scheme : has_safe_scheme p u schemes ≡ true
    pub url : Url
    pub parsed : p.parse_url u ≡ some url
    pub no_username : is_empty url.username ≡ true
    pub no_password : is_empty url.password ≡ true

  -- a place in the document
  pub record IsInternal (u : String) : Type 0 where
    pub marked : starts_with u "#" ≡ true
    pub target : is_target (slice_from_one u) ≡ true

  true_of_not : (b : Bool) → not b ≡ false → b ≡ true
  true_of_not b e = ground arith

  parsed_some :
      (o : Option Url) (url : Url) → parsed_or_failed p o ≡ Checked.passed url → o ≡ some url
  parsed_some none url e = ground arith
  parsed_some (some v) url e = rw (passed_injective v url e) refl

  no_user :
      (url : Url) (u : Unit {0})
      → validate_parsed_absolute_url p url ≡ Checked.passed u
      → (is_empty url.username ≡ true) × (is_empty url.password ≡ true)
  unfolding validate_parsed_absolute_url
  no_user url u ends =
      let (a, tested, _) =
        passed_parts
          (refuse_if (not (is_empty url.username && is_empty url.password))
            "Embedded URL credentials are not allowed.")
          _ u ends in
      &&-true _ _ (true_of_not _ (refuse_if-passed _ _ a tested))

  absolute :
      (schemes : List String) (n : String) (url : Url)
      → has_safe_scheme p n schemes ≡ true
      → p.parse_url n ≡ some url
      → (is_empty url.username ≡ true) × (is_empty url.password ≡ true)
      → IsAbsolute schemes n
  absolute schemes n url scheme parsed (username, password) = record {
    scheme = scheme;
    url = url;
    parsed = parsed;
    no_username = username;
    no_password = password;
  }

  -- what a document may refer to: a place in itself, or an address by one of the schemes
  pub record IsSafe (schemes : List String) (u : String) : Type 0 where
    pub sanitized : IsSanitized u
    pub leads : IsInternal u ⊎ IsAbsolute schemes u

  module _ (schemes : List String) (value u : String) where
    pub assert_safe_external_url-IsSafe :
        assert_safe_external_url p value schemes ≡ Checked.passed u → IsSafe schemes u
    unfolding assert_safe_external_url
    assert_safe_external_url-IsSafe ends =
        let (n, sanitized, ends1) = passed_parts (sanitize_url_input p value) _ u ends in
        let (a, scheme, ends2) =
          passed_parts (refuse_if (not (has_safe_scheme p n schemes)) "URL scheme is not allowed.")
            _ u ends1 in
        let (url, parsed, ends3) = passed_parts (parse_absolute_url p n) _ u ends2 in
        let (b, valid, ends4) = passed_parts (validate_parsed_absolute_url p url) _ u ends3 in
        subst (IsSafe schemes) (passed_injective n u ends4) (record {
          sanitized = sanitize_url_input-IsSanitized value n sanitized;
          leads = inr (
              absolute schemes n url (true_of_not _ (refuse_if-passed _ _ a scheme))
                (parsed_some (p.parse_url n) url parsed) (no_user url b valid));
        })

    pub assert_safe_asset_url-IsSafe :
        assert_safe_asset_url p value schemes ≡ Checked.passed u → IsSafe schemes u
    unfolding assert_safe_asset_url
    assert_safe_asset_url-IsSafe ends =
        let (n, sanitized, ends1) = passed_parts (sanitize_url_input p value) _ u ends in
        let (a, scheme, ends2) =
          passed_parts
            (refuse_if (not (has_safe_scheme p n schemes)) "Asset URL scheme is not allowed.") _ u
            ends1 in
        let (url, parsed, ends3) = passed_parts (parse_absolute_url p n) _ u ends2 in
        let (b, valid, ends4) = passed_parts (validate_parsed_absolute_url p url) _ u ends3 in
        let (c, _, ends5) =
          passed_parts (refuse_if (is_asset_path_missing p url) "Asset URL path is invalid.") _ u
            ends4 in
        subst (IsSafe schemes) (passed_injective n u ends5) (record {
          sanitized = sanitize_url_input-IsSanitized value n sanitized;
          leads = inr (
              absolute schemes n url (true_of_not _ (refuse_if-passed _ _ a scheme))
                (parsed_some (p.parse_url n) url parsed) (no_user url b valid));
        })

    pub assert_safe_internal_href-IsSafe :
        assert_safe_internal_href p value ≡ Checked.passed u → IsSafe schemes u
    unfolding assert_safe_internal_href
    assert_safe_internal_href-IsSafe ends =
        let (n, sanitized, ends1) = passed_parts (sanitize_url_input p value) _ u ends in
        let (a, marked, ends2) =
          passed_parts (refuse_if (not (starts_with n "#")) "Internal href must start with #.") _ u
            ends1 in
        let (b, target, ends3) =
          passed_parts
            (refuse_if (not (is_target (slice_from_one n))) "Internal href target is invalid.") _ u
            ends2 in
        subst (IsSafe schemes) (passed_injective n u ends3) (record {
          sanitized = sanitize_url_input-IsSanitized value n sanitized;
          leads = inl (record {
            marked = true_of_not _ (refuse_if-passed _ _ a marked);
            target = true_of_not _ (refuse_if-passed _ _ b target);
          });
        })
