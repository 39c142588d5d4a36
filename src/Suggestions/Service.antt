-- ===== src/Suggestions/Service.antt =====
-- `suggestion_service.ts`. What other parts answer is a record of answers, one for each question that a
-- request asks: the breaker, the configuration, the clients, the post-processors, the user who
-- cancels. The arrays of options are objects, since the cache keeps the array that the caller gets. Log
-- lines, the contexts added to a request, and the project are left out. The cache is
-- taken to be enabled.
pub mod Life
pub mod Requests
pub mod Failing
pub mod Settling
pub mod Sharing
use khulnasoft_lsp.Base.{
  ℕ, zero, suc, ◌+◌, ◌<◌, Bool, true, false, not, List, [], ◌∷◌, ◌++◌, map, length, Option, none,
  some, String, ◌&&◌, ◌||◌, ltb, if◌then◌else◌, JsText, number_key, text_key, ◌===◌,
}
use khulnasoft_lsp.Base.JsMap
use khulnasoft_lsp.Base.JsMap.{JsMap}
use khulnasoft_lsp.Tracking.Events.{TrackingEvent, loaded, not_provided, shown, errored, cancelled}
use khulnasoft_lsp.Streaming.{BreakerCall, success, error}
use khulnasoft_lsp.Suggestions.Filter.{is_at_or_near_end_of_line}

pub data TriggerKind : Type 0 where
  invoked automatic : TriggerKind

-- `IDocContext`, of which the service reads the text before and after the cursor.
pub record DocContext : Type 0 where
  pub prefix : JsText
  pub suffix : JsText

-- `key` stands for the document and the position, by which the cache finds its entry.
pub record CompletionRequest : Type 0 where
  pub key : ℕ
  pub document_context : Option DocContext
  pub is_inline : Bool
  pub trigger_kind : Option TriggerKind

pub record SuggestionOption : Type 0 where
  pub index : ℕ
  pub text : JsText
  pub unique_tracking_id : ℕ
  pub model : Option String

pub record SuggestionResponse : Type 0 where
  pub choices : Option (List JsText)
  pub model : Option String
  pub status : ℕ
  pub error_message : Option String
  pub is_direct_connection : Bool

-- How the pipeline of clients answers: it may throw, with the status of a fetch error.
pub data Answer : Type 0 where
  answered : Option SuggestionResponse → Answer
  threw : Option ℕ → Answer

-- The contexts that the tracker is given.
pub data Context : Type 0 where
  of_request : Option TriggerKind → Context
  of_response : Option String → Option ℕ → Option ℕ → Option Bool → Context
  of_failure : ℕ → Context
  of_options : List SuggestionOption → Context
  of_cache : Option TriggerKind → List SuggestionOption → Option String → Context
  of_count : ℕ → List SuggestionOption → Context

-- A call of the tracker, for a suggestion.
pub data TrackerCall : Type 0 where
  set_tracking_context : ℕ → Context → TrackerCall
  track_event : ℕ → TrackingEvent → TrackerCall

-- `arrays` are the arrays of options by their identity, and `cache` the identity of the array that the entry of
-- a key holds.
pub record Service : Type 0 where
  pub tracker_calls : List TrackerCall
  pub breaker_calls : List BreakerCall
  pub next_array : ℕ
  pub arrays : JsMap ℕ (List SuggestionOption)
  pub cache : JsMap ℕ ℕ
  pub errors_handled : ℕ

abbrev pub new : Service
new = record {
  tracker_calls = [];
  breaker_calls = [];
  next_array = 0;
  arrays = [];
  cache = [];
  errors_handled = 0;
}

unfoldable pub tell : TrackerCall → Service → Service
tell call s = record s { tracker_calls = s.tracker_calls ++ call ∷ [] }

unfoldable pub call_breaker : BreakerCall → Service → Service
call_breaker call s = record s { breaker_calls = s.breaker_calls ++ call ∷ [] }

-- A new array: its identity is the old `next_array`.
unfoldable pub allocate : List SuggestionOption → Service → Service
allocate options s = record s {
  next_array = s.next_array + 1;
  arrays = JsMap.set s.arrays s.next_array options;
}

-- What the other parts answer to one request. `process` are the post-processors, which may throw.
pub record Answers : Type 0 where
  pub is_breaker_open : Bool
  pub has_token : Bool
  pub answer : Answer
  pub process : List SuggestionOption → Option (List SuggestionOption)
  pub is_cancelled : Bool
  pub is_cancelled_early : Bool
  pub is_mismatch : Bool
  pub client_tracks_shown : Bool
  pub is_generation_streamed : Bool
  pub cached : List SuggestionOption

-- `#trackShowIfNeeded`
unfoldable pub track_show_if_needed : Bool → ℕ → Service → Service
unfolding tell
track_show_if_needed client_tracks_shown id s =
    if client_tracks_shown then s else tell (track_event id shown) s

-- What `#getSuggestions` tests before it asks the clients.
unfoldable pub is_requested : Bool → Bool → DocContext → Bool
is_requested is_open has_token context =
    if is_open
    then false
    else if not has_token
    then false
    else if ltb (length context.prefix + length context.suffix) 10
    then false
    else is_at_or_near_end_of_line context.suffix

abbrev pub number_from : ℕ → ℕ → Option String → List JsText → List SuggestionOption
number_from index id model [] = []
number_from index id model (text ∷ texts) =
    record { index = index; text = text; unique_tracking_id = id; model = model }
    ∷ number_from (suc index) id model texts

abbrev pub or_none : Option (List JsText) → List JsText
or_none none = []
or_none (some texts) = texts

-- `suggestionOptions`
unfoldable pub suggestion_options : ℕ → Option SuggestionResponse → List SuggestionOption
suggestion_options id none = []
suggestion_options id (some response) = number_from 0 id response.model (or_none response.choices)

abbrev pub is_blank : List JsText → Bool
is_blank [] = true
is_blank ([] ∷ texts) = is_blank texts
is_blank ((u ∷ text) ∷ texts) = false

-- `areSuggestionsNotProvided`
unfoldable pub are_suggestions_not_provided : Option SuggestionResponse → Bool
are_suggestions_not_provided none = true
are_suggestions_not_provided (some response) = is_blank (or_none response.choices)

abbrev count_of : Option (List JsText) → Option ℕ
count_of none = none
count_of (some texts) = some (length texts)

unfoldable pub response_context : Option SuggestionResponse → Context
response_context none = of_response none none none none
response_context (some response) =
    of_response response.model (some response.status) (count_of response.choices)
      (some response.is_direct_connection)

abbrev is_truthy : Option String → Bool
is_truthy none = false
is_truthy (some message) = not (message === "")

-- `suggestionsResponse?.error`
unfoldable pub has_error : Option SuggestionResponse → Bool
has_error none = false
has_error (some response) = is_truthy response.error_message
