-- ===== src/Suggestions/Tests.antt =====
-- The theorems on a document with the line "let x = f(", and a client that answers with one suggestion.
use khulnasoft_lsp.Base.{
  ℕ, ◌+◌, ◌*◌, ◌-◌, take, drop, arith, true, false, List, [], ◌∷◌, ◌++◌, Option, none, some, ◌≡◌,
  ◌↔◌, refl, number_key, JsText, is_white, text_of, starts_with,
}
use khulnasoft_lsp.Base.JsMap
use khulnasoft_lsp.Tracking.Events.{shown}
use khulnasoft_lsp.Suggestions.Filter.{
  should_reject_completion, is_at_or_near_end_of_line, line_suffix, allowed_past_cursor, is_closer,
  is_mark, skip, skip_one,
}
use khulnasoft_lsp.Suggestions.Filter.LineEnd.{IsLineEnd, is_at_or_near_end_of_line_iff}
use khulnasoft_lsp.Suggestions.Items.{
  Position, Range, SelectedCompletionInfo, SuggestionOptionOrStream, text_option, stream_option,
  as_array, inline_completion_option_mapper, sanitize_range,
}
use khulnasoft_lsp.Suggestions.Items.Inserting.{
  accepted, continued, accepted-inline_completion_option_mapper,
}
use khulnasoft_lsp.Suggestions.Service.{
  automatic, DocContext, CompletionRequest, SuggestionOption, SuggestionResponse, answered,
  TrackerCall, Answers, new, is_requested, are_suggestions_not_provided, has_error,
}
use khulnasoft_lsp.Suggestions.Service.Requests.{
  handle_non_streaming_completion, with_indices, get_suggestion_options,
}
use khulnasoft_lsp.Suggestions.Service.Life.{
  Course, replay, fate, handle_non_streaming_completion-Course,
}
use khulnasoft_lsp.Suggestions.Service.Settling.{
  Settles, processed_options, given_by, handle_non_streaming_completion-Settles,
}
use khulnasoft_lsp.Suggestions.Service.Failing.{
  FailsLoaded, handle_non_streaming_completion-FailsLoaded,
}
use khulnasoft_lsp.Suggestions.Service.Sharing.{
  GivesJoined, invoked_at, get_suggestion_options-GivesJoined,
}

-- ") ;" and a line break.
abbrev closing : JsText
closing = 41 ∷ 32 ∷ 59 ∷ 10 ∷ 97 ∷ []

is_at_or_near_end_of_line_iff_example :
    (is_at_or_near_end_of_line closing ≡ true) ↔ IsLineEnd (line_suffix closing)
is_at_or_near_end_of_line_iff_example = is_at_or_near_end_of_line_iff closing

abbrev document : DocContext
document = record {
  prefix = 108 ∷ 101 ∷ 116 ∷ 32 ∷ 120 ∷ 32 ∷ 61 ∷ 32 ∷ 102 ∷ 40 ∷ [];
  suffix = closing;
}

abbrev request : CompletionRequest
request = record {
  key = 7;
  document_context = some document;
  is_inline = true;
  trigger_kind = some automatic;
}

abbrev response : Option SuggestionResponse
response = some (record {
  choices = some ((120 ∷ 41 ∷ []) ∷ []);
  model = some "m";
  status = 200;
  error_message = none;
  is_direct_connection = false;
})

abbrev cached_option : SuggestionOption
cached_option = record { index = 4; text = 121 ∷ []; unique_tracking_id = 2; model = some "m" }

-- The post-processors keep the options as they are.
abbrev answers : Answers
answers = record {
  is_breaker_open = false;
  has_token = true;
  answer = answered response;
  process = some;
  is_cancelled = false;
  is_cancelled_early = false;
  is_mismatch = false;
  client_tracks_shown = false;
  is_generation_streamed = false;
  cached = cached_option ∷ [];
}

abbrev failing_answers : Answers
failing_answers = record answers { process = λ os. none }

fate_shown : fate answers document ≡ some shown
unfolding is_requested is_at_or_near_end_of_line line_suffix allowed_past_cursor is_closer is_mark
    skip skip_one is_white are_suggestions_not_provided has_error
fate_shown = refl

handle_non_streaming_completion-Course_example :
    (cs : List TrackerCall) × ((handle_non_streaming_completion answers 3 request document
        new).1.tracker_calls
      ≡ [] ++ cs)
    × Course 3 cs (fate answers document)
    × (JsMap.get (replay cs []) 3 ≡ fate answers document)
unfolding JsMap.get
handle_non_streaming_completion-Course_example =
    handle_non_streaming_completion-Course answers 3 request document new [] (λ os h. cc) refl

handle_non_streaming_completion-Settles_example :
    Settles
      (fate answers document)
      request
      (processed_options answers 3 (answered response))
      new
      (handle_non_streaming_completion answers 3 request document new)
handle_non_streaming_completion-Settles_example =
    handle_non_streaming_completion-Settles answers 3 request document new (λ os h. cc)

get_suggestion_options-GivesJoined_example :
    GivesJoined
      (fate answers document)
      7
      (with_indices 0 (cached_option ∷ [])
        ++ given_by (fate answers document) (processed_options answers 3 (answered response)))
      (get_suggestion_options answers 3 (invoked_at 7 document true) new)
get_suggestion_options-GivesJoined_example =
    get_suggestion_options-GivesJoined answers 3 7 document true new (λ os h. cc)

handle_non_streaming_completion-FailsLoaded_example :
    FailsLoaded 3 [] new (handle_non_streaming_completion failing_answers 3 request document new)
unfolding JsMap.get is_requested is_at_or_near_end_of_line line_suffix allowed_past_cursor is_closer
    is_mark skip skip_one has_error is_white
handle_non_streaming_completion-FailsLoaded_example =
    handle_non_streaming_completion-FailsLoaded failing_answers 3 request document new [] response
      refl refl refl refl refl

-- "con" is typed on the second line, "console" is selected, and ".log" is suggested.
abbrev typed : JsText
typed = text_of "ab\n+con;"

abbrev offset_in : Position → ℕ
offset_in p = 3 * p.line + p.character

abbrev text_in : Range → JsText
text_in range =
    take (offset_in range.end - offset_in range.start) (drop (offset_in range.start) typed)

abbrev selected : SelectedCompletionInfo
selected = record {
  text = text_of "console";
  range = as_array (record { line = 1; character = 1 }) (record { line = 1; character = 4 });
}

abbrev offered : List SuggestionOptionOrStream
offered =
    text_option (record { index = 0; text = text_of ".log"; unique_tracking_id = 3; model = none })
    ∷ stream_option 1 4
    ∷ []

accepted-inline_completion_option_mapper_example :
    accepted offset_in typed
      (inline_completion_option_mapper (sanitize_range selected.range).end (some selected) offered)
    ≡ continued offset_in typed (sanitize_range selected.range) (text_of "console") offered
unfolding should_reject_completion starts_with sanitize_range
accepted-inline_completion_option_mapper_example =
    accepted-inline_completion_option_mapper offset_in typed text_in selected offered refl refl
      (omega arith) refl
