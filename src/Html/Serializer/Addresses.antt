-- ===== src/Html/Serializer/Addresses.antt =====
-- The addresses that are written.
use roam_content_engine.Prelude.{
  String, Option, none, some, Bool, false, List, [], ◌∷◌, ◌≡◌, ◌⊎◌, str_eq, All,
}
use roam_content_engine.Html.Checked.{Checked}
use roam_content_engine.Html.Url.{Platform}
use roam_content_engine.Html.Url.Safe.{IsSafe}

module _ (p : Platform) (locale_before : String → String → Bool) where
  -- an address that an element may have
  pub data IsWritable (u : String) : Type 0 where
    elsewhere : IsSafe p ("https" ∷ "http" ∷ "mailto" ∷ []) u → IsWritable u
    of_asset : IsSafe p ("https" ∷ "http" ∷ "asset" ∷ []) u → IsWritable u

  -- every value of the attribute can be written
  abbrev SafeValue : Option String → Type 0
  SafeValue none = Unit {0}
  SafeValue (some u) = IsWritable u

  -- each assignment is to another key, or of a value that can be written
  abbrev AreSafe : String → List (String × Option String) → Type 0
  AreSafe k pairs = All (λ pair. (str_eq k pair.0 ≡ false) ⊎ SafeValue pair.1) pairs

  -- the two attributes that hold an address
  pub data IsAddress : String → Type 0 where
    is_href : IsAddress "href"
    is_src : IsAddress "src"
