-- ===== src/Suggestions/Items.antt =====
-- `src/common/utils/suggestion_mappers.ts` and `sanitize_range.ts`, with the handlers of `suggestion_service.ts` that give the
-- client what these make. The titles of commands, and the words of a label around its number, are left out.
pub mod Inserting
use khulnasoft_lsp.Base.{
  ℕ, suc, ◌+◌, ◌-◌, Bool, true, false, List, [], ◌∷◌, ◌++◌, map, filter, drop, Option, none, some,
  JsText,
}
use khulnasoft_lsp.Suggestions.Service.{SuggestionOption}

-- `Position`
pub record Position : Type 0 where
  pub line : ℕ
  pub character : ℕ

-- `Range`
pub record Range : Type 0 where
  pub start : Position
  pub end : Position

-- A range as it comes at run time: an object, or an array of two positions.
pub data GivenRange : Type 0 where
  as_object : Range → GivenRange
  as_array : Position → Position → GivenRange

unfoldable pub sanitize_range : GivenRange → Range
sanitize_range (as_object range) = range
sanitize_range (as_array first second) = record { start = first; end = second }

-- What the client has selected in its list of completions
pub record SelectedCompletionInfo : Type 0 where
  pub text : JsText
  pub range : GivenRange

-- `SuggestionOptionOrStream`; the ids of streams and of suggestions are numbers.
pub data SuggestionOptionOrStream : Type 0 where
  text_option : SuggestionOption → SuggestionOptionOrStream
  stream_option : ℕ → ℕ → SuggestionOptionOrStream

pub record CompletionItem : Type 0 where
  pub label : ℕ × JsText
  pub insert_text : JsText
  pub detail : JsText
  pub argument : ℕ
  pub index : ℕ
  pub tracking_id : ℕ

-- An item of an inline list: that a stream starts, with both ids, or a text with its range, and the id and number of its option.
pub data InlineCompletionItem : Type 0 where
  start_streaming : ℕ → ℕ → InlineCompletionItem
  accept_suggestion : JsText → Range → ℕ → ℕ → InlineCompletionItem

abbrev has_units : JsText → Bool
has_units [] = false
has_units (u ∷ text) = true

-- The suggestions that `isTextSuggestion` accepts
unfoldable pub text_suggestions : List SuggestionOptionOrStream → List SuggestionOption
unfolding filter
text_suggestions options = filter (λ (o : SuggestionOption). has_units o.text) (texts options)
  where
    texts : List SuggestionOptionOrStream → List SuggestionOption
    texts [] = []
    texts (text_option o ∷ os) = o ∷ texts os
    texts (stream_option id tracking_id ∷ os) = texts os

abbrev pub number_items : ℕ → List SuggestionOption → List CompletionItem
number_items index [] = []
number_items index (o ∷ os) =
    record {
      label = (index + 1, o.text);
      insert_text = o.text;
      detail = o.text;
      argument = o.unique_tracking_id;
      index = index;
      tracking_id = o.unique_tracking_id;
    }
    ∷ number_items (suc index) os

unfoldable pub completion_option_mapper : List SuggestionOption → List CompletionItem
completion_option_mapper options = number_items 0 options

-- `completionHandler`, with the options of the request
unfoldable pub completion_handler : List SuggestionOptionOrStream → List CompletionItem
unfolding text_suggestions completion_option_mapper
completion_handler options = completion_option_mapper (text_suggestions options)

-- What is left of the selected text when the part that its range has is taken off. `substring` takes a negative number as zero.
unfoldable pub remaining_text : SelectedCompletionInfo → JsText
unfolding sanitize_range
remaining_text info =
    let range = sanitize_range info.range in
    drop (range.end.character - range.start.character) info.text

abbrev pub text_with : Option SelectedCompletionInfo → JsText → JsText
text_with none text = text
text_with (some info) text = remaining_text info ++ text

unfoldable pub inline_item :
    Position → Option SelectedCompletionInfo → SuggestionOptionOrStream → InlineCompletionItem
unfolding remaining_text
inline_item position info (stream_option id tracking_id) = start_streaming id tracking_id
inline_item position info (text_option o) =
    accept_suggestion (text_with info o.text) (record { start = position; end = position })
      o.unique_tracking_id (o.index + 1)

-- `inlineCompletionHandler` gives this for the options of the request.
unfoldable pub inline_completion_option_mapper :
    Position
    → Option SelectedCompletionInfo
    → List SuggestionOptionOrStream
    → List InlineCompletionItem
unfolding inline_item
inline_completion_option_mapper position info [] = []
inline_completion_option_mapper position info (o ∷ os) =
    inline_item position info o ∷ inline_completion_option_mapper position info os
