-- ===== src/Tracking/InstanceTracker.antt =====
-- src/common/tracking/code_suggestions/code_suggestions_instance_tracker.ts. A request to the
-- instance is sent by `track_event` and settles later, as a step of its own. The log lines, and the
-- language and timestamps of a context, are left out.
pub mod Sending
use khulnasoft_lsp.Base.{
  ℕ, ◌+◌, max, eqb, Bool, true, false, not, List, [], ◌∷◌, ◌++◌, Option, none, some, ◌&&◌, ◌||◌,
  if◌then◌else◌, leb, Key, any,
}
use khulnasoft_lsp.Base.JsMap
use khulnasoft_lsp.Base.JsMap.{JsMap}
use khulnasoft_lsp.CircuitBreaker.Fixed
use khulnasoft_lsp.CircuitBreaker.Fixed.{FixedTimeCircuitBreaker}
use khulnasoft_lsp.Tracking.Events.{
  TrackingEvent, InstanceEvent, requested, accepted, rejected, includes,
  instance_tracking_events_map,
}
use khulnasoft_lsp.Tracking.State.{
  States, can_update_state, update_suggestion_state, get_opened_suggestions, delete_suggestion,
}

-- `СodeSuggestionContext`: the number of lines of the largest option, and `is_streaming`.
pub record CodeSuggestionContext : Type 0 where
  pub suggestion_size : ℕ
  pub is_streaming : Bool

-- The code points of a text.
abbrev pub Text : Type 0
Text = List ℕ

-- The fields of `Partial<ICodeSuggestionContextUpdate>` that the tracker reads. An option is given
-- by its text.
pub record ContextUpdate : Type 0 where
  pub is_streaming : Option Bool
  pub suggestion_options : List Text

-- `ITelemetryOptions`: `actions` are the events that the client tracks itself.
pub record TelemetryOptions : Type 0 where
  pub enabled : Bool
  pub actions : List TrackingEvent

pub record TelemetryConfig : Type 0 where
  pub enabled : Option Bool
  pub actions : Option (List TrackingEvent)

pub record Sent {ℓ} (TrackingId : Type ℓ) : Type ℓ where
  pub event : InstanceEvent
  pub unique_tracking_id : TrackingId
  pub suggestion_size : Option ℕ

pub record InstanceTracker {ℓ} (TrackingId : Type ℓ) : Type ℓ where
  pub contexts : JsMap TrackingId CodeSuggestionContext
  pub breaker : FixedTimeCircuitBreaker
  pub options : TelemetryOptions
  pub states : States TrackingId
  pub invalid_instance_msg_logged : Bool
  -- the requests sent, oldest first, and the garbage collection timers not yet fired
  pub outbox : List (Sent TrackingId)
  pub gc_timers : List TrackingId

-- `text.split('\n').length`
unfoldable pub lines_from : Text → ℕ
lines_from [] = 1
lines_from (c ∷ text) = lines_from text + (if eqb c 10 then 1 else 0)

unfoldable pub count_lines : Text → ℕ
unfolding lines_from
count_lines [] = 0
count_lines (c ∷ text) = lines_from (c ∷ text)

-- `Math.max(0, ...options.map(countLines))`
unfoldable pub calculate_suggestion_size : List Text → ℕ
unfolding count_lines
calculate_suggestion_size [] = 0
calculate_suggestion_size (text ∷ texts) = max (count_lines text) (calculate_suggestion_size texts)

abbrev pub is_true : Option Bool → Bool
is_true (some b) = b
is_true none = false

abbrev pub streams : Option CodeSuggestionContext → Bool
streams none = false
streams (some c) = c.is_streaming

abbrev size_of : Option CodeSuggestionContext → Option ℕ
size_of none = none
size_of (some c) = some c.suggestion_size

unfoldable pub merge_enabled : Option Bool → Bool → Bool
merge_enabled none old = old
merge_enabled (some b) old = b

unfoldable pub merge_actions : Option (List TrackingEvent) → List TrackingEvent → List TrackingEvent
merge_actions none old = old
merge_actions (some actions) old = actions

-- Only a client that tracks acceptances and not rejections has its suggestions auto-rejected.
unfoldable pub auto_rejects : List TrackingEvent → Bool
auto_rejects actions = includes actions accepted && not (includes actions rejected)

-- The fields of a context that an update gives.
unfoldable pub merge_size : List Text → ℕ → ℕ
merge_size [] old = old
merge_size (n ∷ ns) old = calculate_suggestion_size (n ∷ ns)

-- The outcome of a request.
pub data Outcome : Type 0 where
  success invalid_instance_version failure : Outcome

module _ {ℓ} {TrackingId : Type ℓ} where
  unfoldable pub new : InstanceTracker TrackingId
  new = record {
    contexts = [];
    breaker = Fixed.new Fixed.max_errors_before_circuit_break Fixed.circuit_break_interval_ms;
    options = record { enabled = true; actions = [] };
    states = [];
    invalid_instance_msg_logged = false;
    outbox = [];
    gc_timers = [];
  }

  -- `#reconfigure`
  unfoldable pub reconfigure :
      TelemetryConfig → InstanceTracker TrackingId → InstanceTracker TrackingId
  unfolding merge_enabled merge_actions
  reconfigure config t = record t {
    options = record {
      enabled = merge_enabled config.enabled t.options.enabled;
      actions = merge_actions config.actions t.options.actions;
    };
  }

  -- What follows the request of `#trackCodeSuggestionsEvent`.
  unfoldable pub settle : Outcome → InstanceTracker TrackingId → InstanceTracker TrackingId
  settle success t = record t { breaker = Fixed.success t.breaker }
  settle failure t = record t { breaker = Fixed.error t.breaker }
  settle invalid_instance_version t =
      if t.invalid_instance_msg_logged
      then t
      else record t { invalid_instance_msg_logged = true; breaker = Fixed.error t.breaker }

module _ {ℓ} {TrackingId : Type ℓ} ⦃e : Key TrackingId⦄ where
  unfoldable pub is_streaming_suggestion : InstanceTracker TrackingId → TrackingId → Bool
  is_streaming_suggestion t id = streams (JsMap.get t.contexts id)

  -- The request of `#trackCodeSuggestionsEvent`, if the instance knows the event.
  unfoldable pub send :
      Option InstanceEvent → TrackingId → InstanceTracker TrackingId → InstanceTracker TrackingId
  send none id t = t
  send (some event) id t = record t {
    outbox =
        t.outbox
        ++ record {
          event = event;
          unique_tracking_id = id;
          suggestion_size = size_of (JsMap.get t.contexts id);
        }
          ∷ [];
  }

  unfoldable pub track_event :
      TrackingEvent → TrackingId → InstanceTracker TrackingId → InstanceTracker TrackingId
  unfolding is_streaming_suggestion
  track_event event id t =
      let is_streaming = is_streaming_suggestion t id in
      if not t.options.enabled
      then t
      else if is_streaming
      then t
      else if can_update_state t.states id event is_streaming
      then send (instance_tracking_events_map event) id
          (record t { states = update_suggestion_state t.states id event is_streaming })
      else t

  unfoldable pub track_rejections :
      List TrackingId → InstanceTracker TrackingId → InstanceTracker TrackingId
  track_rejections [] t = t
  track_rejections (id ∷ ids) t = track_rejections ids (track_event rejected id t)

  -- `#rejectOpenedSuggestions`
  unfoldable pub reject_opened_suggestions : InstanceTracker TrackingId → InstanceTracker TrackingId
  reject_opened_suggestions t = track_rejections (get_opened_suggestions t.states) t

  -- The timer and the entry for a new suggestion.
  unfoldable pub store_context :
      TrackingId → ContextUpdate → InstanceTracker TrackingId → InstanceTracker TrackingId
  store_context id context t = record t {
    gc_timers = t.gc_timers ++ id ∷ [];
    contexts = JsMap.set t.contexts id (record {
      is_streaming = is_true context.is_streaming;
      suggestion_size = calculate_suggestion_size context.suggestion_options;
    });
  }

  unfoldable pub set_code_suggestions_context :
      TrackingId → ContextUpdate → InstanceTracker TrackingId → InstanceTracker TrackingId
  unfolding auto_rejects store_context
  set_code_suggestions_context id context t =
      let t₁ = if auto_rejects t.options.actions then reject_opened_suggestions t else t in
      let t₂ = store_context id context t₁ in
      if Fixed.is_open t.breaker
      then t
      else if is_streaming_suggestion t₂ id
      then t₂
      else track_event requested id t₂

  unfoldable pub update_existing :
      Option CodeSuggestionContext
      → TrackingId
      → ContextUpdate
      → InstanceTracker TrackingId
      → InstanceTracker TrackingId
  unfolding merge_size
  update_existing none id update t = t
  update_existing (some context) id update t = record t {
    contexts = JsMap.set t.contexts id (record {
      is_streaming = merge_enabled update.is_streaming context.is_streaming;
      suggestion_size = merge_size update.suggestion_options context.suggestion_size;
    });
  }

  unfoldable pub update_code_suggestions_context :
      TrackingId → ContextUpdate → InstanceTracker TrackingId → InstanceTracker TrackingId
  unfolding update_existing is_streaming_suggestion merge_enabled
  update_code_suggestions_context id update t =
      if Fixed.is_open t.breaker
      then t
      else if is_streaming_suggestion t id
      then t
      else update_existing (JsMap.get t.contexts id) id update t

  unfoldable pub set_tracking_context :
      TrackingId → ContextUpdate → InstanceTracker TrackingId → InstanceTracker TrackingId
  set_tracking_context id context t =
      if JsMap.has t.contexts id
      then update_code_suggestions_context id context t
      else set_code_suggestions_context id context t

  -- The callback of the garbage collection timer of a suggestion.
  unfoldable pub collect : TrackingId → InstanceTracker TrackingId → InstanceTracker TrackingId
  collect id t =
      if JsMap.has t.contexts id
      then record t {
        contexts = JsMap.delete t.contexts id;
        states = delete_suggestion t.states id;
      }
      else t

  -- The garbage collection timers all have the delay `GC_TIME`, so they fire in the order in which
  -- they were started.
  unfoldable pub fire_gc_from :
      List TrackingId → InstanceTracker TrackingId → InstanceTracker TrackingId
  unfolding collect
  fire_gc_from [] t = t
  fire_gc_from (id ∷ ids) t = collect id (record t { gc_timers = ids })

  unfoldable pub fire_gc : InstanceTracker TrackingId → InstanceTracker TrackingId
  unfolding fire_gc_from
  fire_gc t = fire_gc_from t.gc_timers t
