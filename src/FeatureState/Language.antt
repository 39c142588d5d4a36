-- ===== src/FeatureState/Language.antt =====
-- `supported_language_check.ts`: the one check whose id changes. The service that knows the languages
-- is a parameter: which are enabled, and which are supported.
use khulnasoft_lsp.Base.{Bool, false, not, Option, none, some, String, ◌&&◌, if◌then◌else◌}
use khulnasoft_lsp.FeatureState.Checks.{
  StateCheckId, disabled_language, unsupported_language, StateCheck,
}

-- The language of the current document, if there is one.
pub record LanguageCheck : Type 0 where
  pub current_language : Option String
  pub is_language_enabled : Bool
  pub is_language_supported : Bool

unfoldable pub new : LanguageCheck
new = record { current_language = none; is_language_enabled = false; is_language_supported = false }

unfoldable pub id_of : LanguageCheck → StateCheckId
id_of c =
    if c.is_language_supported && not c.is_language_enabled
    then disabled_language
    else unsupported_language

unfoldable pub engaged : LanguageCheck → Bool
engaged c = not c.is_language_enabled

-- What the manager reads.
unfoldable pub state_check : LanguageCheck → StateCheck
unfolding id_of engaged
state_check c = record {
  id = id_of c;
  engaged = engaged c;
  details = some "Code suggestions are not supported for this language";
  context = none;
}

module _ (is_enabled is_supported : String → Bool) where
  unfoldable pub check_language_of : Option String → LanguageCheck
  unfolding new
  check_language_of none = new
  check_language_of (some language) = record {
    current_language = some language;
    is_language_enabled = is_enabled language;
    is_language_supported = is_supported language;
  }

  -- `#update`, which the service calls when its languages change.
  unfoldable pub update : LanguageCheck → LanguageCheck
  unfolding check_language_of
  update c = check_language_of c.current_language

  unfoldable pub update_with_document : String → LanguageCheck → LanguageCheck
  unfolding update
  update_with_document language c = update (record c { current_language = some language })
