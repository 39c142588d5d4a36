-- ===== src/Suggestions/Service/Settling.antt =====
-- What one request gives, leaves in the cache, and tells the breaker and the error handler.
use khulnasoft_lsp.Base.{
  ℕ, ◌+◌, ◌<◌, List, [], ◌∷◌, ◌++◌, Option, none, some, ◌≡◌, ◌≢◌, refl, number_key, Bool-cases,
  Option-cases, inl, inr, arith,
}
use mathlib.Core.List.{append-nil}
use khulnasoft_lsp.Base.JsMap
use khulnasoft_lsp.Base.JsMap.{get-set, get-set_self}
use khulnasoft_lsp.Tracking.Events.{TrackingEvent, loaded, not_provided, shown, errored, cancelled}
use khulnasoft_lsp.Streaming.{BreakerCall, success, error}
use khulnasoft_lsp.Suggestions.Service.{
  DocContext, CompletionRequest, SuggestionOption, SuggestionResponse, Answer, answered, threw,
  Service, Answers, is_requested, suggestion_options, are_suggestions_not_provided, has_error, tell,
  call_breaker, allocate, track_show_if_needed,
}
use khulnasoft_lsp.Suggestions.Service.Requests.{
  throws, give_nothing, add_to_cache, finish, after_processing, after_loading, after_answer,
  get_suggestions, handle_failure, caught, handle_non_streaming_completion, or_empty,
}
use khulnasoft_lsp.Suggestions.Service.Life.{fate, fate_of_answer, fate_of_options}

-- The options of the answer, after the post-processors.
abbrev pub processed_options : Answers → ℕ → Answer → List SuggestionOption
processed_options a id (threw status) = []
processed_options a id (answered response) = or_empty (a.process (suggestion_options id response))

-- Only a suggestion that stays loaded or shown is given.
abbrev pub given_by : Option TrackingEvent → List SuggestionOption → List SuggestionOption
given_by (some loaded) os = os
given_by (some shown) os = os
given_by _ os = []

-- A request that was sent is one success or one error of the breaker.
abbrev pub verdict_of : Option TrackingEvent → List BreakerCall
verdict_of none = []
verdict_of (some errored) = error ∷ []
verdict_of (some _) = success ∷ []

abbrev pub failures_of : Option TrackingEvent → ℕ
failures_of (some errored) = 1
failures_of _ = 0

-- An array that the cache holds for the key, with its options.
abbrev IsCached : ℕ → List SuggestionOption → Service → Type 0
IsCached key os t = (k : ℕ) × (JsMap.get t.cache key ≡ some k) × (JsMap.get t.arrays k ≡ some os)

-- The entry of the request holds the array that is given itself, or, if nothing is given though the request
-- succeeded, the options; else the cache is as before.
abbrev pub Caches :
    Option TrackingEvent → ℕ → List SuggestionOption → ℕ → Service → Service → Type 0
Caches (some loaded) key os array s t = JsMap.get t.cache key ≡ some array
Caches (some shown) key os array s t = JsMap.get t.cache key ≡ some array
Caches (some cancelled) key os array s t = IsCached key os t
Caches (some not_provided) key os array s t = IsCached key os t
Caches _ key os array s t = t.cache ≡ s.cache

abbrev pub Settles :
    Option TrackingEvent
    → CompletionRequest
    → List SuggestionOption
    → Service
    → ℕ × Service
    → Type 0
Settles o request os s (array, t) =
    (JsMap.get t.arrays array ≡ some (given_by o os))
    × Caches o request.key os array s t
    × (t.breaker_calls ≡ s.breaker_calls ++ verdict_of o)
    × (t.errors_handled ≡ s.errors_handled + failures_of o)

module _ (a : Answers) (id : ℕ) (request : CompletionRequest) (s : Service) where
  throws-Settles :
      (status : Option ℕ) (os : List SuggestionOption) (t : Service)
      → t.cache ≡ s.cache
      → t.breaker_calls ≡ s.breaker_calls
      → t.errors_handled ≡ s.errors_handled
      → Settles (some errored) request os s (caught a id request (throws status t))
  unfolding caught handle_failure tell call_breaker allocate
  throws-Settles none os t c b e =
      (get-set_self t.arrays t.next_array [], c, rw b, omega (arith, e))
  throws-Settles (some status) os t c b e =
      (get-set_self t.arrays t.next_array [], c, rw b, omega (arith, e))

  finish-Settles :
      (response : Option SuggestionResponse) (os : List SuggestionOption) (array : ℕ) (t : Service)
      → JsMap.get t.cache request.key ≡ some array
      → JsMap.get t.arrays array ≡ some os
      → array < t.next_array
      → t.breaker_calls ≡ s.breaker_calls ++ success ∷ []
      → t.errors_handled ≡ s.errors_handled
      → Settles
          (some (fate_of_options a response))
          request
          os
          s
          (caught a id request (finish a id request response array t))
  unfolding caught finish give_nothing tell track_show_if_needed allocate
  finish-Settles response os array t c held new b e = elim (Bool-cases a.is_cancelled) [
    | inl x ↦ rw x (get-set_self t.arrays t.next_array [], (array, c, kept), b, omega (arith, e))
    | inr x ↦ elim (Bool-cases (are_suggestions_not_provided response)) [
      | inl n ↦
          rw (x, n) (get-set_self t.arrays t.next_array [], (array, c, kept), b, omega (arith, e))
      | inr n ↦ elim (Bool-cases a.client_tracks_shown) [
        | inl y ↦ rw (x, n, y) (held, c, b, omega (arith, e))
        | inr y ↦ rw (x, n, y) (held, c, b, omega (arith, e))
      ]
    ]
  ]
    where
      kept : JsMap.get (JsMap.set t.arrays t.next_array []) array ≡ some os
      kept = ground (arith, get-set t.arrays t.next_array array [], held)

  after_answer-Settles :
      (answer : Answer) (t : Service)
      → ((os : List SuggestionOption) → a.process os ≢ none)
      → t.cache ≡ s.cache
      → t.breaker_calls ≡ s.breaker_calls
      → t.errors_handled ≡ s.errors_handled
      → Settles
          (some (fate_of_answer a answer))
          request
          (processed_options a id answer)
          s
          (caught a id request (after_answer a id request answer t))
  unfolding after_answer tell after_loading after_processing call_breaker add_to_cache allocate
  after_answer-Settles (threw status) t total c b e = throws-Settles status [] t c b e
  after_answer-Settles (answered response) t total c b e = elim (Bool-cases (has_error response)) [
    | inl f ↦ rw f (throws-Settles none (processed_options a id (answered response)) _ c b e)
    | inr f ↦ elim (Option-cases (a.process (suggestion_options id response))) [
      | inl p ↦ absurd (total (suggestion_options id response) p)
      | inr (os, p) ↦
          rw (f, p)
            (finish-Settles response os t.next_array _
              (get-set_self t.cache request.key t.next_array)
              (get-set_self t.arrays t.next_array os) (omega arith) (rw b) e)
    ]
  ]

-- If the post-processors do not throw, a request that ends as loaded or shown gives the processed options, and
-- every other request gives an empty array. The entry of the cache holds the array that was given, and the
-- processed options also after a cancelled request or one with nothing to show; a request that was not sent, or
-- that failed, leaves the cache as it was. A request that was sent is one call of the breaker, an error exactly
-- if it failed, when it is also handled once as an error; one that was not sent is neither.
pub handle_non_streaming_completion-Settles :
    (a : Answers) (id : ℕ) (request : CompletionRequest) (context : DocContext) (s : Service)
    → ((os : List SuggestionOption) → a.process os ≢ none)
    → Settles
        (fate a context)
        request
        (processed_options a id a.answer)
        s
        (handle_non_streaming_completion a id request context s)
unfolding handle_non_streaming_completion get_suggestions give_nothing caught tell allocate
handle_non_streaming_completion-Settles a id request context s total =
    elim (Bool-cases (is_requested a.is_breaker_open a.has_token context)) [
      | inl r ↦ rw r (after_answer-Settles a id request s a.answer _ total refl refl refl)
      | inr r ↦ rw r (
        get-set_self s.arrays s.next_array [],
        refl,
        rw (append-nil s.breaker_calls),
        omega arith,
      )
    ]
