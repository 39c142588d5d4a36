-- ===== src/Clients/Requests.antt =====
-- `suggestion_client.ts` and `create_v2_request.ts`.
use khulnasoft_lsp.Base.{ℕ, Bool, true, false, List, [], ◌∷◌, Option, none, some, String, JsText}

-- `Intent`, without `undefined`.
pub data Intent : Type 0 where
  generation completion : Intent

-- The fields of `IDocContext` that a request takes.
pub record Document : Type 0 where
  pub prefix : JsText
  pub suffix : JsText
  pub file_relative_path : JsText

pub record SuggestionContext : Type 0 where
  pub document : Document
  pub intent : Option Intent
  pub project_path : Option String
  pub options_count : Option ℕ
  pub additional_contexts : Option (List JsText)

pub record SuggestionResponse : Type 0 where
  pub choices : Option (List JsText)
  pub status : ℕ
  pub error_message : Option String
  pub is_direct_connection : Option Bool

-- `IDirectConnectionModelDetails`
pub record ModelDetails : Type 0 where
  pub model_provider : String
  pub model_name : String

-- `CodeSuggestionRequest`, with the fields that `createV2Request` sets.
pub record CodeSuggestionRequest : Type 0 where
  pub prompt_version : ℕ
  pub project_path : String
  pub content_above_cursor : JsText
  pub content_below_cursor : JsText
  pub file_name : JsText
  pub choices_count : Option ℕ
  pub intent : Option Intent
  pub context : Option (List JsText)
  pub model_details : Option ModelDetails

abbrev or_empty_text : Option String → String
or_empty_text none = ""
or_empty_text (some text) = text

-- `additionalContexts?.length && { context: additionalContexts }`
abbrev pub non_empty : Option (List JsText) → Option (List JsText)
non_empty none = none
non_empty (some []) = none
non_empty (some (c ∷ cs)) = some (c ∷ cs)

unfoldable pub create_v2_request : SuggestionContext → Option ModelDetails → CodeSuggestionRequest
create_v2_request c model_details = record {
  prompt_version = 1;
  project_path = or_empty_text c.project_path;
  content_above_cursor = c.document.prefix;
  content_below_cursor = c.document.suffix;
  file_name = c.document.file_relative_path;
  choices_count = c.options_count;
  intent = c.intent;
  context = non_empty c.additional_contexts;
  model_details = model_details;
}

unfoldable pub is_generation : Option Intent → Bool
is_generation none = false
is_generation (some completion) = false
is_generation (some generation) = true
