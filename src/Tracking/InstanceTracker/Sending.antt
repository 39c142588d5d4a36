-- ===== src/Tracking/InstanceTracker/Sending.antt =====
-- What reaches the instance, and what a new context does to the suggestions before it.
use khulnasoft_lsp.Base.{
  ℕ, zero, suc, ltb, Bool, true, false, not, List, [], ◌∷◌, Option, none, some, ◌≡◌, ◌≢◌, refl, ◌∙◌,
  arith, ◌&&◌, Key, ◌===◌, Bool-cases, inl, inr, if◌then◌else◌, contains,
}
use khulnasoft_lsp.Base.JsMap
use khulnasoft_lsp.Base.JsMap.{get-set}
use khulnasoft_lsp.CircuitBreaker.Fixed
use khulnasoft_lsp.CircuitBreaker.Fixed.Opening.{errors-is_open}
use khulnasoft_lsp.Tracking.Events.{
  TrackingEvent, requested, shown, accepted, rejected, is_event, is_event_iff,
  streaming_suggestion_state_graph, InstanceEvent, instance_tracking_events_map, includes,
  non_streaming_suggestion_state_graph,
}
use khulnasoft_lsp.Tracking.State.Opened.{contains-get_opened_suggestions}
use khulnasoft_lsp.Tracking.State.{
  States, can_update_state, update_suggestion_state, get_opened_suggestions, can_update_from,
}
use khulnasoft_lsp.Tracking.InstanceTracker.{
  InstanceTracker, ContextUpdate, track_event, store_context, track_rejections,
  reject_opened_suggestions, send, set_code_suggestions_context, is_streaming_suggestion,
  auto_rejects, new, settle, failure, set_tracking_context,
}

abbrev is_shown : Option TrackingEvent → Bool
is_shown none = false
is_shown (some s) = is_event s shown

can_reject : (s : Option TrackingEvent) → can_update_from s rejected false ≡ is_shown s
unfolding can_update_from non_streaming_suggestion_state_graph includes
can_reject none = refl
can_reject (some s) = ground arith

again_refused :
    (event : TrackingEvent) (b : Bool)
    → event ≢ requested
    → event ≢ accepted
    → can_update_from (some event) event b ≡ false
unfolding can_update_from includes non_streaming_suggestion_state_graph
    streaming_suggestion_state_graph
again_refused requested b r a = absurd (r refl)
again_refused accepted b r a = absurd (a refl)
again_refused _ true r a = refl
again_refused _ false r a = refl

module _ {ℓ} {TrackingId : Type ℓ} ⦃e : Key TrackingId⦄ where
  send-parts :
      (event : Option InstanceEvent) (id : TrackingId) (t : InstanceTracker TrackingId)
      → let u = send event id t in
        (u.states ≡ t.states) × (u.contexts ≡ t.contexts) × (u.options ≡ t.options)
  unfolding send
  send-parts none id t = (refl, refl, refl)
  send-parts (some event) id t = (refl, refl, refl)

  track_event-parts :
      (event : TrackingEvent) (id : TrackingId) (t : InstanceTracker TrackingId)
      → let u = track_event event id t in
        (u.contexts ≡ t.contexts)
        × (u.options ≡ t.options)
        × (u.states ≡ (
            if t.options.enabled && not (is_streaming_suggestion t id)
            then update_suggestion_state t.states id event false
            else t.states))
  unfolding track_event update_suggestion_state
  track_event-parts event id t = ground (
    arith,
    send-parts (instance_tracking_events_map event) id
        (record t { states = update_suggestion_state t.states id event false }),
  )

  -- A rejection, of a tracker that is enabled.
  get-track_event_rejected :
      (id j : TrackingId) (t : InstanceTracker TrackingId)
      → t.options.enabled ≡ true
      → JsMap.get (track_event rejected id t).states j ≡ (
          if id === j && not (is_streaming_suggestion t j) && is_shown (JsMap.get t.states j)
          then some rejected
          else JsMap.get t.states j)
  unfolding update_suggestion_state can_update_state
  get-track_event_rejected id j t on = ground (
    arith,
    track_event-parts rejected id t,
    can_reject (JsMap.get t.states id),
    get-set t.states id j rejected,
    e.same_iff id j,
  )

  get-track_rejections :
      (ids : List TrackingId) (j : TrackingId) (t : InstanceTracker TrackingId)
      → t.options.enabled ≡ true
      → JsMap.get (track_rejections ids t).states j ≡ (
          if contains ids j && not (is_streaming_suggestion t j) && is_shown (JsMap.get t.states j)
          then some rejected
          else JsMap.get t.states j)
  unfolding track_rejections contains is_streaming_suggestion
  get-track_rejections [] j t on = refl
  get-track_rejections (id ∷ ids) j t on = ground (
    arith,
    get-track_rejections ids j (track_event rejected id t),
    get-track_event_rejected id j t on,
    track_event-parts rejected id t,
  )

  shown-opened :
      (states : States TrackingId) (j : TrackingId)
      → JsMap.Distinct states
      → JsMap.get states j ≡ some shown
      → contains (get_opened_suggestions states) j ≡ true
  unfolding includes
  shown-opened states j d h = rw (contains-get_opened_suggestions states j d, h)

  track_event_ne :
      (event : TrackingEvent) (id j : TrackingId) (t : InstanceTracker TrackingId)
      → id ≢ j
      → JsMap.get (track_event event id t).states j ≡ JsMap.get t.states j
  unfolding update_suggestion_state
  track_event_ne event id j t ne =
      ground (arith, track_event-parts event id t, get-set t.states id j event, e.same_iff id j)

  rejected_by_opened :
      (j : TrackingId) (t : InstanceTracker TrackingId)
      → t.options.enabled ≡ true
      → JsMap.Distinct t.states
      → is_streaming_suggestion t j ≡ false
      → JsMap.get t.states j ≡ some shown
      → JsMap.get (reject_opened_suggestions t).states j ≡ some rejected
  unfolding reject_opened_suggestions
  rejected_by_opened j t on d whole h =
      get-track_rejections (get_opened_suggestions t.states) j t on
      ∙ rw (shown-opened t.states j d h, whole, h)

  -- With a client that reports acceptances but no rejections, an enabled tracker and a closed
  -- breaker: when the context of a new suggestion is set, every other suggestion that is shown
  -- and not streamed becomes rejected.
  pub set_context-rejects_shown :
      (id j : TrackingId) (context : ContextUpdate) (t : InstanceTracker TrackingId)
      → t.options.enabled ≡ true
      → Fixed.is_open t.breaker ≡ false
      → auto_rejects t.options.actions ≡ true
      → JsMap.Distinct t.states
      → id ≢ j
      → is_streaming_suggestion t j ≡ false
      → JsMap.get t.states j ≡ some shown
      → JsMap.get (set_code_suggestions_context id context t).states j ≡ some rejected
  unfolding set_code_suggestions_context
  set_context-rejects_shown id j context t on closed auto d ne whole h =
      let t₁ = reject_opened_suggestions t in
      let t₂ = store_context id context t₁ in
      let done : JsMap.get t₁.states j ≡ some rejected = rejected_by_opened j t on d whole h in
      elim (Bool-cases (is_streaming_suggestion t₂ id)) [
        | inl s ↦ rw (closed, auto, s) done
        | inr s ↦ rw (closed, auto, s) (track_event_ne requested id j t₂ ne ∙ done)
      ]

  -- An event other than a request or an acceptance is recorded, and reported, at most once: to
  -- track it again at once changes nothing.
  pub track_event_again :
      (event : TrackingEvent) (id : TrackingId) (t : InstanceTracker TrackingId)
      → event ≢ requested
      → event ≢ accepted
      → track_event event id (track_event event id t) ≡ track_event event id t
  unfolding track_event can_update_state update_suggestion_state
  track_event_again event id t r a = ground (
    arith,
    again_refused event false r a,
    is_event_iff event requested,
    JsMap.get-set_self t.states id event,
    send-parts (instance_tracking_events_map event) id
        (record t { states = JsMap.set t.states id event }),
  )

-- `n` requests in a row that fail.
unfoldable pub failed {ℓ} :
    {TrackingId : Type ℓ} → ℕ → InstanceTracker TrackingId → InstanceTracker TrackingId
failed zero t = t
failed (suc n) t = settle failure (failed n t)

module _ {ℓ} {TrackingId : Type ℓ} where
  failed-new :
      (n : ℕ)
      → let t = failed {TrackingId = TrackingId} n new in
        (t.contexts ≡ [])
        × (t.options ≡ record { enabled = true; actions = [] })
        × (t.breaker ≡ Fixed.errors n (Fixed.new 4 10000))
  unfolding failed settle new Fixed.errors
  failed-new zero = (refl, refl, refl)
  failed-new (suc n) = ground (arith, failed-new n)

module _ {ℓ} {TrackingId : Type ℓ} ⦃e : Key TrackingId⦄ where
  contexts-track_event :
      (event : TrackingEvent) (id : TrackingId) (t : InstanceTracker TrackingId)
      → (track_event event id t).contexts ≡ t.contexts
  contexts-track_event event id t = (track_event-parts event id t).0

  stores_unless_open :
      (id : TrackingId) (context : ContextUpdate) (t : InstanceTracker TrackingId)
      → t.contexts ≡ []
      → auto_rejects t.options.actions ≡ false
      → JsMap.has (set_tracking_context id context t).contexts id ≡ not (Fixed.is_open t.breaker)
  unfolding set_tracking_context set_code_suggestions_context JsMap.has JsMap.get JsMap.set
  stores_unless_open id context t empty quiet =
      ground
        (arith, contexts-track_event requested id (store_context id context t), e.same_iff id id)

  -- Four failed requests in a row silence a new tracker: after `n` of
  -- them the context of a suggestion is stored exactly if `n` is below 4.
  pub failed-has_context :
      (n : ℕ) (id : TrackingId) (context : ContextUpdate)
      → JsMap.has (set_tracking_context id context (failed n new)).contexts id ≡ ltb n 4
  unfolding auto_rejects includes
  failed-has_context n id context =
      let (empty, options, breaker) = failed-new {TrackingId = TrackingId} n in
      stores_unless_open id context (failed n new) empty (rw options refl)
      ∙ rw (breaker, errors-is_open 4 10000 n (omega arith)) (ground arith)
