-- ===== src/Suggestions/Service/Life.antt =====
-- What one request tells the tracker, as the life of a suggestion, against the state manager of the tracker.
use khulnasoft_lsp.Base.{
  ℕ, false, List, [], ◌∷◌, ◌++◌, Option, none, some, ◌≡◌, ◌≢◌, refl, number_key, ===_refl,
  Bool-cases, Option-cases, if◌then◌else◌, inl, inr,
}
use khulnasoft_lsp.Base.JsMap
use khulnasoft_lsp.Base.JsMap.{get-set}
use mathlib.Core.List.{append_assoc, append-nil}
use khulnasoft_lsp.Tracking.Events.{
  TrackingEvent, requested, loaded, not_provided, shown, errored, cancelled,
}
use khulnasoft_lsp.Tracking.State.{States, update_suggestion_state}
use khulnasoft_lsp.Tracking.State.Lifecycle.{
  Follows, load, fail, show, cancel_loaded, nothing_loaded, can_update_state_iff,
  get-update_suggestion_state,
}
use khulnasoft_lsp.Suggestions.Service.{
  DocContext, CompletionRequest, SuggestionOption, SuggestionResponse, Answer, answered, threw,
  Context, TrackerCall, set_tracking_context, track_event, Service, Answers, is_requested,
  suggestion_options, are_suggestions_not_provided, has_error, tell, call_breaker, allocate,
  track_show_if_needed, of_request, of_options, of_failure, response_context,
}
use khulnasoft_lsp.Suggestions.Service.Requests.{
  Outcome, throws, give_nothing, add_to_cache, finish, after_processing, after_loading,
  after_answer, get_suggestions, handle_failure, caught, handle_non_streaming_completion,
}

-- The calls that tell of one suggestion, and the state they leave it in: it is created once, and then its context is
-- updated, or an event follows its state.
pub data Course (id : ℕ) : List TrackerCall → Option TrackingEvent → Type 0 where
  untold : Course id [] none
  created : (c : Context) → Course id (set_tracking_context id c ∷ []) (some requested)
  updated :
      {cs : List TrackerCall} {t : TrackingEvent} (c : Context)
      → Course id cs (some t)
      → Course id (cs ++ set_tracking_context id c ∷ []) (some t)
  recorded :
      {cs : List TrackerCall} {t u : TrackingEvent}
      → Course id cs (some t)
      → Follows false t u
      → Course id (cs ++ track_event id u ∷ []) (some u)

-- What the state manager does on a call: a suggestion of which it is told for the first time is requested.
abbrev pub replay_call : TrackerCall → States ℕ → States ℕ
replay_call (set_tracking_context id c) states =
    if JsMap.has states id then states else update_suggestion_state states id requested false
replay_call (track_event id t) states = update_suggestion_state states id t false

abbrev pub replay : List TrackerCall → States ℕ → States ℕ
replay [] states = states
replay (c ∷ cs) states = replay cs (replay_call c states)

pub replay-append :
    (cs ds : List TrackerCall) (states : States ℕ)
    → replay (cs ++ ds) states ≡ replay ds (replay cs states)
replay-append [] ds states = refl
replay-append (c ∷ cs) ds states = replay-append cs ds (replay_call c states)

created_state :
    (id : ℕ) (states : States ℕ)
    → JsMap.get states id ≡ none
    → JsMap.get (update_suggestion_state states id requested false) id ≡ some requested
created_state id states unknown = rw (
  get-update_suggestion_state states id id requested false,
  (can_update_state_iff states id requested false).1 (inl refl),
  ===_refl id,
)

recorded_state :
    (id : ℕ) (t u : TrackingEvent) (states : States ℕ)
    → JsMap.get states id ≡ some t
    → Follows false t u
    → JsMap.get (update_suggestion_state states id u false) id ≡ some u
recorded_state id t u states known f = rw (
  get-update_suggestion_state states id id u false,
  (can_update_state_iff states id u false).1 (inr (t, known, f)),
  ===_refl id,
)

-- The state manager accepts the whole course of a suggestion that it does not know.
pub replay-Course :
    (id : ℕ) (cs : List TrackerCall) (o : Option TrackingEvent) (states : States ℕ)
    → JsMap.get states id ≡ none
    → Course id cs o
    → JsMap.get (replay cs states) id ≡ o
unfolding JsMap.has
replay-Course id _ _ states unknown untold = unknown
replay-Course id _ _ states unknown (created c) = rw unknown (created_state id states unknown)
replay-Course id _ (some t) states unknown (updated {cs} c course) =
    let known = replay-Course id cs (some t) states unknown course in
    rw (replay-append cs (set_tracking_context id c ∷ []) states, known) known
replay-Course id _ _ states unknown (recorded {cs} {t} {u} course f) =
    rw (replay-append cs (track_event id u ∷ []) states) (
      recorded_state id t u (replay cs states) (replay-Course id cs (some t) states unknown course)
        f)

-- `ys` is `xs` and a course of the suggestion.
abbrev pub Told : ℕ → Option TrackingEvent → List TrackerCall → List TrackerCall → Type 0
Told id o xs ys = (cs : List TrackerCall) × (ys ≡ xs ++ cs) × Course id cs o

pub set_tracking_context-Told :
    (id : ℕ) (t : TrackingEvent) (c : Context) (xs ys : List TrackerCall)
    → Told id (some t) xs ys
    → Told id (some t) xs (ys ++ set_tracking_context id c ∷ [])
set_tracking_context-Told id t c xs ys (cs, h, course) = (
  cs ++ set_tracking_context id c ∷ [],
  rw h (append_assoc xs cs (set_tracking_context id c ∷ [])),
  updated c course,
)

pub track_event-Told :
    (id : ℕ) (t u : TrackingEvent) (xs ys : List TrackerCall)
    → Follows false t u
    → Told id (some t) xs ys
    → Told id (some u) xs (ys ++ track_event id u ∷ [])
track_event-Told id t u xs ys f (cs, h, course) = (
  cs ++ track_event id u ∷ [],
  rw h (append_assoc xs cs (track_event id u ∷ [])),
  recorded course f,
)

-- The state that a request leaves its suggestion in, if the post-processors do not throw.
abbrev pub fate_of_options : Answers → Option SuggestionResponse → TrackingEvent
fate_of_options a response =
    if a.is_cancelled
    then cancelled
    else if are_suggestions_not_provided response
    then not_provided
    else if a.client_tracks_shown
    then loaded
    else shown

abbrev pub fate_of_answer : Answers → Answer → TrackingEvent
fate_of_answer a (threw status) = errored
fate_of_answer a (answered response) =
    if has_error response then errored else fate_of_options a response

abbrev pub fate : Answers → DocContext → Option TrackingEvent
fate a context =
    if is_requested a.is_breaker_open a.has_token context
    then some (fate_of_answer a a.answer)
    else none

module _ (a : Answers) (id : ℕ) (request : CompletionRequest) (xs : List TrackerCall) where
  -- An outcome, once a failure is caught, has told the course up to `o`.
  abbrev Ends : Option TrackingEvent → Outcome → Type 0
  Ends o out = Told id o xs ((caught a id request out).1.tracker_calls)

  throws-Ends :
      (status : Option ℕ) (s : Service)
      → Told id (some requested) xs s.tracker_calls
      → Ends (some errored) (throws status s)
  unfolding caught handle_failure tell call_breaker allocate
  throws-Ends none s h = track_event-Told id requested errored xs _ (fail false) h
  throws-Ends (some status) s h =
      track_event-Told id requested errored xs _ (fail false)
        (set_tracking_context-Told id requested (of_failure status) xs _ h)

  finish-Ends :
      (response : Option SuggestionResponse) (array : ℕ) (s : Service)
      → Told id (some loaded) xs s.tracker_calls
      → Ends (some (fate_of_options a response)) (finish a id request response array s)
  unfolding caught finish give_nothing tell track_show_if_needed allocate
  finish-Ends response array s h = elim (Bool-cases a.is_cancelled) [
    | inl c ↦ rw c (track_event-Told id loaded cancelled xs _ cancel_loaded h)
    | inr c ↦ elim (Bool-cases (are_suggestions_not_provided response)) [
      | inl n ↦ rw (c, n) (track_event-Told id loaded not_provided xs _ nothing_loaded h)
      | inr n ↦ elim (Bool-cases a.client_tracks_shown) [
        | inl t ↦
            rw (c, n, t)
              (set_tracking_context-Told id loaded (of_options (suggestion_options id response)) xs
                _ h)
        | inr t ↦
            rw (c, n, t)
              (track_event-Told id loaded shown xs _ show (
                set_tracking_context-Told id loaded (of_options (suggestion_options id response)) xs
                  _ h))
      ]
    ]
  ]

  after_loading-Ends :
      (response : Option SuggestionResponse) (s : Service)
      → ((os : List SuggestionOption) → a.process os ≢ none)
      → Told id (some requested) xs s.tracker_calls
      → Ends (some (fate_of_options a response)) (after_loading a id request response s)
  unfolding after_loading after_processing tell call_breaker add_to_cache allocate
  after_loading-Ends response s total h =
      elim (Option-cases (a.process (suggestion_options id response))) [
        | inl p ↦ absurd (total (suggestion_options id response) p)
        | inr (os, p) ↦
            rw p (
              finish-Ends response s.next_array _
                (track_event-Told id requested loaded xs _ load h))
      ]

  after_answer-Ends :
      (answer : Answer) (s : Service)
      → ((os : List SuggestionOption) → a.process os ≢ none)
      → Told id (some requested) xs s.tracker_calls
      → Ends (some (fate_of_answer a answer)) (after_answer a id request answer s)
  unfolding after_answer tell
  after_answer-Ends (threw status) s total h = throws-Ends status s h
  after_answer-Ends (answered response) s total h =
      let told = set_tracking_context-Told id requested (response_context response) xs _ h in
      elim (Bool-cases (has_error response)) [
        | inl e ↦ rw e (throws-Ends none _ told)
        | inr e ↦ rw e (after_loading-Ends response _ total told)
      ]

-- If the post-processors do not throw, one request tells the tracker the course of one suggestion, and nothing
-- else: no suggestion if the breaker is open, there is no token, the document is short or the cursor is inside a
-- line; else it is requested, and ends as failed if the clients throw or answer with an error, and otherwise as
-- cancelled, not provided, loaded or shown. A state manager that does not know the suggestion accepts every event
-- of the course.
pub handle_non_streaming_completion-Course :
    (a : Answers) (id : ℕ) (request : CompletionRequest) (context : DocContext) (s : Service)
    (states : States ℕ)
    → ((os : List SuggestionOption) → a.process os ≢ none)
    → JsMap.get states id ≡ none
    → (cs : List TrackerCall) × ((handle_non_streaming_completion a id request context
          s).1.tracker_calls
        ≡ s.tracker_calls ++ cs)
      × Course id cs (fate a context)
      × (JsMap.get (replay cs states) id ≡ fate a context)
unfolding handle_non_streaming_completion get_suggestions give_nothing caught tell allocate
handle_non_streaming_completion-Course a id request context s states total unknown =
    (t.0, t.1, t.2, replay-Course id t.0 _ states unknown t.2)
  where
    t :
        Told id
          (fate a context)
          s.tracker_calls
          ((handle_non_streaming_completion a id request context s).1.tracker_calls)
    t = elim (Bool-cases (is_requested a.is_breaker_open a.has_token context)) [
      | inl r ↦ rw r (
          after_answer-Ends a id request s.tracker_calls a.answer _ total
            (set_tracking_context id (of_request request.trigger_kind) ∷ [], refl, created _))
      | inr r ↦ rw r ([], rw (append-nil s.tracker_calls), untold)
    ]
