-- ===== src/FeatureState/Checks.antt =====
-- `feature_state_management_types.ts` and `state_check.ts`. A feature, and the id of a check, are
-- constructors in place of the texts of the constants.
use khulnasoft_lsp.Base.{
  ℕ, Bool, List, [], ◌∷◌, ◌++◌, Option, String, eqb, Key, arith, true, ◌≡◌, ◌↔◌,
}

pub data Feature : Type 0 where
  authentication code_suggestions chat : Feature

pub data StateCheckId : Type 0 where
  authentication_required invalid_token suggestions_authentication_required : StateCheckId
  suggestions_no_license chat_authentication_required chat_no_license : StateCheckId
  duo_disabled_for_project unsupported_khulnasoft_version unsupported_language : StateCheckId
  disabled_language suggestions_api_error chat_disabled_by_user : StateCheckId
  suggestions_disabled_by_user : StateCheckId

abbrev number_of : StateCheckId → ℕ
number_of authentication_required = 0
number_of invalid_token = 1
number_of suggestions_authentication_required = 2
number_of suggestions_no_license = 3
number_of chat_authentication_required = 4
number_of chat_no_license = 5
number_of duo_disabled_for_project = 6
number_of unsupported_khulnasoft_version = 7
number_of unsupported_language = 8
number_of disabled_language = 9
number_of suggestions_api_error = 10
number_of chat_disabled_by_user = 11
number_of suggestions_disabled_by_user = 12

pub same_number_iff : (a b : StateCheckId) → (eqb (number_of a) (number_of b) ≡ true) ↔ (a ≡ b)
same_number_iff a b = ground arith

instance abbrev pub check_key : Key StateCheckId
check_key = record { same = λ a b. eqb (number_of a) (number_of b); same_iff = same_number_iff }

-- `UnsupportedKhulnaSoftVersionCheckContext`
pub record Context : Type 0 where
  pub version : String
  pub base_url : String

-- What the manager reads of a check, which may change with time, its id too.
pub record StateCheck : Type 0 where
  pub id : StateCheckId
  pub engaged : Bool
  pub details : Option String
  pub context : Option Context

pub record FeatureStateCheck : Type 0 where
  pub check_id : StateCheckId
  pub details : Option String
  pub context : Option Context
  pub engaged : Bool

pub record FeatureState : Type 0 where
  pub feature_id : Feature
  pub engaged_checks : List FeatureStateCheck
  pub all_checks : List FeatureStateCheck

-- The first has the highest priority.
abbrev authentication_checks : List StateCheckId
authentication_checks = authentication_required ∷ []

-- `CHECKS_PER_FEATURE`
unfoldable pub checks_per_feature : Feature → List StateCheckId
checks_per_feature authentication = authentication_checks
checks_per_feature code_suggestions =
    authentication_checks
    ++ suggestions_disabled_by_user ∷ suggestions_api_error ∷ unsupported_khulnasoft_version
      ∷ suggestions_no_license ∷ duo_disabled_for_project ∷ unsupported_language ∷ disabled_language
      ∷ []
checks_per_feature chat =
    authentication_checks ++ chat_disabled_by_user ∷ chat_no_license ∷ duo_disabled_for_project ∷ []
