-- ===== src/Suggestions/Service/Requests.antt =====
-- The methods of the service: `#getSuggestions`, `#handleNonStreamingCompletion`,
-- `#useAndTrackCachedSuggestions` and `#getSuggestionOptions`. The steps of one request are taken in order.
use khulnasoft_lsp.Base.{
  ℕ, suc, ◌+◌, Bool, true, false, List, [], ◌∷◌, ◌++◌, ◌||◌, length, Option, none, some, ◌&&◌,
  if◌then◌else◌, number_key,
}
use khulnasoft_lsp.Base.JsMap
use khulnasoft_lsp.Base.JsMap.{JsMap}
use khulnasoft_lsp.Tracking.Events.{loaded, not_provided, errored, cancelled}
use khulnasoft_lsp.Streaming.{success, error}
use khulnasoft_lsp.Suggestions.Service.{
  TriggerKind, invoked, automatic, DocContext, CompletionRequest, SuggestionOption,
  SuggestionResponse, Answer, answered, threw, of_request, of_failure, of_options, of_cache,
  of_count, set_tracking_context, track_event, Service, tell, call_breaker, allocate, Answers,
  track_show_if_needed, is_requested, suggestion_options, are_suggestions_not_provided,
  response_context, has_error,
}

-- How `#getSuggestions` ends: it returns an array, or throws, with the status of a fetch error.
pub data Outcome : Type 0 where
  gives : ℕ → Service → Outcome
  throws : Option ℕ → Service → Outcome

-- `return []`
unfoldable pub give_nothing : Service → Outcome
unfolding allocate
give_nothing s = gives s.next_array (allocate [] s)

-- `this.#suggestionsCache.addToSuggestionCache(…)`: the entry holds the array itself.
unfoldable pub add_to_cache : ℕ → ℕ → Service → Service
add_to_cache key array s = record s { cache = JsMap.set s.cache key array }

module _ (a : Answers) (id : ℕ) (request : CompletionRequest) where
  -- From the processed options on.
  unfoldable pub finish : Option SuggestionResponse → ℕ → Service → Outcome
  unfolding give_nothing tell track_show_if_needed are_suggestions_not_provided suggestion_options
  finish response array s =
      if a.is_cancelled
      then give_nothing (tell (track_event id cancelled) s)
      else if are_suggestions_not_provided response
      then give_nothing (tell (track_event id not_provided) s)
      else gives array (
          track_show_if_needed a.client_tracks_shown id
            (tell (set_tracking_context id (of_options (suggestion_options id response))) s))

  unfoldable pub after_processing :
      Option SuggestionResponse → Option (List SuggestionOption) → Service → Outcome
  unfolding finish allocate add_to_cache
  after_processing response none s = throws none s
  after_processing response (some processed) s =
      finish response s.next_array (add_to_cache request.key s.next_array (allocate processed s))

  unfoldable pub after_loading : Option SuggestionResponse → Service → Outcome
  unfolding after_processing tell call_breaker
  after_loading response s =
      after_processing response (a.process (suggestion_options id response))
        (call_breaker success (tell (track_event id loaded) s))

  unfoldable pub after_answer : Answer → Service → Outcome
  unfolding after_loading has_error response_context
  after_answer (threw status) s = throws status s
  after_answer (answered response) s =
      let told = tell (set_tracking_context id (response_context response)) s in
      if has_error response then throws none told else after_loading response told

  -- `#getSuggestions`
  unfoldable pub get_suggestions : DocContext → Service → Outcome
  unfolding after_answer is_requested
  get_suggestions context s =
      if is_requested a.is_breaker_open a.has_token context
      then after_answer a.answer
          (tell (set_tracking_context id (of_request request.trigger_kind)) s)
      else give_nothing s

  abbrev pub tell_status : Option ℕ → Service → Service
  tell_status none s = s
  tell_status (some status) s = record s {
    tracker_calls = s.tracker_calls ++ set_tracking_context id (of_failure status) ∷ [];
  }

  -- The `catch` of `#handleNonStreamingCompletion`.
  unfoldable pub handle_failure : Option ℕ → Service → Service
  unfolding tell call_breaker
  handle_failure status s =
      let failed = call_breaker error (tell (track_event id errored) (tell_status status s)) in
      record failed { errors_handled = failed.errors_handled + 1 }

  unfoldable pub caught : Outcome → ℕ × Service
  unfolding handle_failure allocate
  caught (gives array s) = (array, s)
  caught (throws status s) =
      let failed = handle_failure status s in (failed.next_array, allocate [] failed)

  -- `#handleNonStreamingCompletion`
  unfoldable pub handle_non_streaming_completion : DocContext → Service → ℕ × Service
  unfolding caught get_suggestions
  handle_non_streaming_completion context s = caught (get_suggestions context s)

-- `options.map((option, index) => ({ ...option, index }))`
abbrev pub with_indices : ℕ → List SuggestionOption → List SuggestionOption
with_indices index [] = []
with_indices index (o ∷ os) = record o { index = index } ∷ with_indices (suc index) os

-- `#useAndTrackCachedSuggestions`
unfoldable pub use_and_track_cached_suggestions :
    Bool
    → Option TriggerKind
    → List SuggestionOption
    → Service
    → Option (List SuggestionOption) × Service
unfolding tell track_show_if_needed
use_and_track_cached_suggestions client_tracks_shown trigger_kind [] s = (none, s)
use_and_track_cached_suggestions client_tracks_shown trigger_kind (o ∷ os) s = (
  some (with_indices 0 (o ∷ os)),
  track_show_if_needed client_tracks_shown o.unique_tracking_id (
      tell (track_event o.unique_tracking_id loaded) (
        tell (set_tracking_context o.unique_tracking_id (of_cache trigger_kind (o ∷ os) o.model))
          s)),
)

-- What a request gives: an array of options, or the start of a stream.
pub data Given : Type 0 where
  array : ℕ → Given
  stream : Given

-- The counts of a request that was invoked are told of each cached suggestion.
unfoldable pub tell_counts : ℕ → List SuggestionOption → List SuggestionOption → Service → Service
unfolding tell
tell_counts count cached [] s = s
tell_counts count cached (o ∷ os) s =
    tell_counts count cached os
      (tell (set_tracking_context o.unique_tracking_id (of_count count cached)) s)

abbrev pub or_empty : Option (List SuggestionOption) → List SuggestionOption
or_empty none = []
or_empty (some os) = os

-- `options.unshift(...(cachedSuggestions ?? []))`
unfoldable pub unshift : ℕ → List SuggestionOption → Service → Service
unshift id added s = record s {
  arrays = JsMap.set s.arrays id (added ++ or_empty (JsMap.get s.arrays id));
}

-- A request that the user invoked gives the cached suggestions and the new ones.
unfoldable pub add_cached : Option (List SuggestionOption) → ℕ × Service → Given × Service
unfolding unshift tell_counts
add_cached found (id, s) =
    let cached = or_empty found in
    let joined = unshift id cached s in
    (array id, tell_counts (length (or_empty (JsMap.get joined.arrays id))) cached cached joined)

module _ (a : Answers) (id : ℕ) (request : CompletionRequest) where
  -- `#handleStreamingInlineCompletion`: the stream starts later.
  unfoldable pub handle_streaming_inline_completion : Service → Given × Service
  unfolding allocate
  handle_streaming_inline_completion s =
      if a.is_breaker_open then (array s.next_array, allocate [] s) else (stream, s)

  abbrev pub as_array : ℕ × Service → Given × Service
  as_array (id, s) = (array id, s)

  -- From the debounce on.
  unfoldable pub request_new : DocContext → Service → Given × Service
  unfolding handle_streaming_inline_completion handle_non_streaming_completion allocate
  request_new context s =
      if a.is_cancelled_early || request.is_inline && a.is_mismatch
      then (array s.next_array, allocate [] s)
      else if request.is_inline && a.is_generation_streamed
      then handle_streaming_inline_completion s
      else as_array (handle_non_streaming_completion a id request context s)

  abbrev pub is_invoked : Option TriggerKind → Bool
  is_invoked (some invoked) = true
  is_invoked (some automatic) = false
  is_invoked none = false

  unfoldable pub with_cached :
      DocContext → Bool → Option (List SuggestionOption) × Service → Given × Service
  unfolding add_cached request_new handle_non_streaming_completion allocate
  with_cached context true (found, s) =
      add_cached found (handle_non_streaming_completion a id request context s)
  with_cached context false (none, s) = request_new context s
  with_cached context false (some cached, s) = (array s.next_array, allocate cached s)

  unfoldable pub options_in : Option DocContext → Service → Given × Service
  unfolding with_cached use_and_track_cached_suggestions allocate
  options_in none s = (array s.next_array, allocate [] s)
  options_in (some context) s =
      with_cached context (is_invoked request.trigger_kind)
        (use_and_track_cached_suggestions a.client_tracks_shown request.trigger_kind a.cached s)

  -- `#getSuggestionOptions`
  unfoldable pub get_suggestion_options : Service → Given × Service
  unfolding options_in
  get_suggestion_options s = options_in request.document_context s
