-- ===== src/Suggestions/Service/Failing.antt =====
-- A request whose post-processors throw, when the suggestion has been told as loaded.
use khulnasoft_lsp.Base.{
  ℕ, true, false, List, [], ◌∷◌, ◌++◌, Option, none, some, ◌≡◌, refl, number_key,
}
use khulnasoft_lsp.Base.JsMap
use khulnasoft_lsp.Base.JsMap.{get-set_self}
use mathlib.Core.List.{append_assoc}
use khulnasoft_lsp.Tracking.Events.{
  requested, loaded, errored, non_streaming_suggestion_state_graph, includes,
}
use khulnasoft_lsp.Tracking.State.{
  States, can_update_state, update_suggestion_state, can_update_from,
}
use khulnasoft_lsp.Tracking.State.Lifecycle.{load, get-update_suggestion_state}
use khulnasoft_lsp.Streaming.{success, error}
use khulnasoft_lsp.Suggestions.Service.{
  DocContext, CompletionRequest, SuggestionResponse, answered, TrackerCall, set_tracking_context,
  track_event, Service, Answers, is_requested, suggestion_options, has_error, tell, call_breaker,
  allocate, of_request, response_context,
}
use khulnasoft_lsp.Suggestions.Service.Requests.{
  after_processing, after_loading, after_answer, get_suggestions, handle_failure, caught,
  handle_non_streaming_completion,
}
use khulnasoft_lsp.Suggestions.Service.Life.{
  Course, created, replay, replay-append, replay-Course, Told, set_tracking_context-Told,
  track_event-Told,
}

-- The suggestion was told as loaded, then once more as failed, which is refused.
abbrev pub FailsLoaded : ℕ → States ℕ → Service → ℕ × Service → Type 0
FailsLoaded id states s (array, t) =
    (cs : List TrackerCall) × (t.tracker_calls
      ≡ s.tracker_calls ++ (cs ++ track_event id errored ∷ []))
    × Course id cs (some loaded)
    × (JsMap.get (replay (cs ++ track_event id errored ∷ []) states) id ≡ some loaded)
    × (t.breaker_calls ≡ s.breaker_calls ++ (success ∷ error ∷ []))
    × (JsMap.get t.arrays array ≡ some [])

refused :
    (id : ℕ) (states : States ℕ)
    → JsMap.get states id ≡ some loaded
    → JsMap.get (update_suggestion_state states id errored false) id ≡ some loaded
unfolding can_update_state can_update_from non_streaming_suggestion_state_graph includes
refused id states known = rw (get-update_suggestion_state states id id errored false, known) refl

fails_loaded :
    (a : Answers) (id : ℕ) (request : CompletionRequest) (s t : Service) (states : States ℕ)
    (response : Option SuggestionResponse)
    → has_error response ≡ false
    → a.process (suggestion_options id response) ≡ none
    → JsMap.get states id ≡ none
    → Told id (some requested) s.tracker_calls t.tracker_calls
    → t.breaker_calls ≡ s.breaker_calls
    → FailsLoaded id states s
        (caught a id request (after_answer a id request (answered response) t))
unfolding after_answer after_loading after_processing caught handle_failure tell call_breaker
    allocate
fails_loaded a id request s t states response fine lost unknown told same =
    let told_all =
      track_event-Told id requested loaded s.tracker_calls _ load (
        set_tracking_context-Told id requested (response_context response) s.tracker_calls _
          told) in
    let (cs, h, course) = told_all in
    rw (fine, lost)
      (
        cs,
        rw h (append_assoc s.tracker_calls cs (track_event id errored ∷ [])),
        course,
        rw (replay-append cs (track_event id errored ∷ []) states) (
            refused id (replay cs states)
              (replay-Course id cs (some loaded) states unknown course)),
        rw same (append_assoc s.breaker_calls (success ∷ []) (error ∷ [])),
        get-set_self t.arrays t.next_array [],
      )

-- When the post-processors throw on the options of an answer without an error, the suggestion has been told
-- as loaded; that it failed is told after that, and a state manager that did not know the suggestion refuses it, so
-- that the suggestion stays loaded. The breaker hears of a success and then of an error, and an empty array is given.
pub handle_non_streaming_completion-FailsLoaded :
    (a : Answers) (id : ℕ) (request : CompletionRequest) (context : DocContext) (s : Service)
    (states : States ℕ) (response : Option SuggestionResponse)
    → is_requested a.is_breaker_open a.has_token context ≡ true
    → a.answer ≡ answered response
    → has_error response ≡ false
    → a.process (suggestion_options id response) ≡ none
    → JsMap.get states id ≡ none
    → FailsLoaded id states s (handle_non_streaming_completion a id request context s)
unfolding handle_non_streaming_completion get_suggestions tell
handle_non_streaming_completion-FailsLoaded a id request context s states response asked known fine
      lost unknown =
    rw asked (
      simp known (
        fails_loaded a id request s _ states response fine lost unknown
          (set_tracking_context id (of_request request.trigger_kind) ∷ [], refl, created _) refl))
