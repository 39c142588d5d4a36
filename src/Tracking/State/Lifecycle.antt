-- ===== src/Tracking/State/Lifecycle.antt =====
-- The life of a suggestion as a relation, and that the state manager follows it.
use khulnasoft_lsp.Base.{
  Bool, true, false, some, ◌≡◌, refl, ◌⊎◌, ◌↔◌, inl, inr, arith, Key, ◌===◌, Bool-cases,
  Option-cases, if◌then◌else◌, ◌≢◌,
}
use khulnasoft_lsp.Base.JsMap
use khulnasoft_lsp.Base.JsMap.{get-set}
use khulnasoft_lsp.Tracking.Events.{
  TrackingEvent, requested, loaded, not_provided, shown, errored, accepted, rejected, cancelled,
  stream_started, stream_completed, is_event, is_event_iff, includes, end_states,
  non_streaming_suggestion_state_graph, streaming_suggestion_state_graph,
}
use khulnasoft_lsp.Tracking.State.{
  States, can_update_state, update_suggestion_state, can_update_from,
}

-- What may follow a state in the life of one suggestion, by whether it is streamed. A user may
-- accept in any state in which the graph knows the suggestion.
pub data Follows : Bool → TrackingEvent → TrackingEvent → Type 0 where
  load : Follows false requested loaded
  fail : (b : Bool) → Follows b requested errored
  show : Follows false loaded shown
  cancel_loaded : Follows false loaded cancelled
  nothing_loaded : Follows false loaded not_provided
  reject_shown : (b : Bool) → Follows b shown rejected
  start : Follows true requested stream_started
  cancel_requested : Follows true requested cancelled
  show_stream : Follows true stream_started shown
  fail_stream : Follows true stream_started errored
  complete_unseen : Follows true stream_started stream_completed
  fail_shown : Follows true shown errored
  complete_shown : Follows true shown stream_completed
  reject_completed : Follows true stream_completed rejected
  nothing_streamed : Follows true stream_completed not_provided
  accept_streamed : (s : TrackingEvent) → s ≢ loaded → Follows true s accepted
  accept_whole :
      (s : TrackingEvent) → s ≢ stream_started → s ≢ stream_completed → Follows false s accepted

ruleset rules = (
  load, fail, show, cancel_loaded, nothing_loaded, reject_shown, start, cancel_requested,
  show_stream, fail_stream, complete_unseen, fail_shown, complete_shown, reject_completed,
  nothing_streamed, accept_streamed, accept_whole,
)

can_update_from-Follows :
    (b : Bool) (s t : TrackingEvent) → can_update_from (some s) t b ≡ true → Follows b s t
unfolding can_update_from includes non_streaming_suggestion_state_graph
    streaming_suggestion_state_graph
can_update_from-Follows true s t h = grind (arith, rules)
can_update_from-Follows false s t h = grind (arith, rules)

accepted_streamed : (s : TrackingEvent) → s ≢ loaded → can_update_from (some s) accepted true ≡ true
unfolding can_update_from includes streaming_suggestion_state_graph
accepted_streamed loaded n = absurd (n refl)
accepted_streamed _ n = refl

accepted_whole :
    (s : TrackingEvent)
    → s ≢ stream_started
    → s ≢ stream_completed
    → can_update_from (some s) accepted false ≡ true
unfolding can_update_from includes non_streaming_suggestion_state_graph
accepted_whole stream_started n m = absurd (n refl)
accepted_whole stream_completed n m = absurd (m refl)
accepted_whole _ n m = refl

Follows-can_update_from :
    (b : Bool) (s t : TrackingEvent) → Follows b s t → can_update_from (some s) t b ≡ true
unfolding can_update_from includes non_streaming_suggestion_state_graph
    streaming_suggestion_state_graph
Follows-can_update_from _ _ _ load = refl
Follows-can_update_from _ _ _ (accept_streamed s n) = accepted_streamed s n
Follows-can_update_from _ _ _ (accept_whole s n m) = accepted_whole s n m
Follows-can_update_from _ _ _ _ = ground arith

Follows-ended :
    (b : Bool) (s t : TrackingEvent)
    → Follows b s t
    → includes end_states s ≡ true
    → t ≢ accepted
    → ⊥
unfolding includes
Follows-ended _ _ _ (accept_streamed s n) h a = a refl
Follows-ended _ _ _ (accept_whole s n m) h a = a refl
Follows-ended _ _ _ load h a = cc
Follows-ended _ _ _ _ h a = cc

module _ {ℓ} {TrackingId : Type ℓ} ⦃e : Key TrackingId⦄ where
  -- An event may be recorded exactly if it is a request, or the suggestion is known and the event
  -- follows its state in the life of a streamed, or of a whole, suggestion.
  pub can_update_state_iff :
      (states : States TrackingId) (id : TrackingId) (t : TrackingEvent) (is_streaming : Bool)
      → (can_update_state states id t is_streaming ≡ true) ↔ (
          (t ≡ requested)
          ⊎ ((s : TrackingEvent) × (JsMap.get states id ≡ some s) × Follows is_streaming s t))
  unfolding can_update_state
  can_update_state_iff states id t is_streaming = (to, from)
    where
      to :
          can_update_state states id t is_streaming ≡ true
          → (t ≡ requested)
            ⊎ ((s : TrackingEvent) × (JsMap.get states id ≡ some s) × Follows is_streaming s t)
      to h = elim (Bool-cases (is_event t requested)) [
        | inl r ↦ inl ((is_event_iff t requested).0 r)
        | inr n ↦ elim (Option-cases (JsMap.get states id)) [
          | inl unknown ↦ cc (rw (n, unknown) at h)
          | inr (s, known) ↦
              inr (s, known, can_update_from-Follows is_streaming s t (rw (n, known) at h))
        ]
      ]

      from :
          (t ≡ requested)
            ⊎ ((s : TrackingEvent) × (JsMap.get states id ≡ some s) × Follows is_streaming s t)
          → can_update_state states id t is_streaming ≡ true
      from (inl r) = rw r refl
      from (inr (s, known, f)) = elim (Bool-cases (is_event t requested)) [
        | inl r ↦ rw r
        | inr n ↦ rw (n, known) (Follows-can_update_from is_streaming s t f)
      ]

  -- A recorded event becomes the state of its suggestion, and an event that may not be recorded
  -- changes nothing; no other suggestion changes.
  pub get-update_suggestion_state :
      (states : States TrackingId) (id other : TrackingId) (t : TrackingEvent) (is_streaming : Bool)
      → JsMap.get (update_suggestion_state states id t is_streaming) other ≡ (
          if can_update_state states id t is_streaming
          then (if id === other then some t else JsMap.get states other)
          else JsMap.get states other)
  unfolding update_suggestion_state
  get-update_suggestion_state states id other t is_streaming =
      elim (Bool-cases (can_update_state states id t is_streaming)) [
        | inl h ↦ rw (h, get-set states id other t)
        | inr h ↦ rw h
      ]

  -- Once a suggestion has been rejected, cancelled, has failed, or had nothing to offer, only a new
  -- request or an acceptance changes its state.
  pub end_state_stays :
      (states : States TrackingId) (id : TrackingId) (s t : TrackingEvent) (is_streaming : Bool)
      → JsMap.get states id ≡ some s
      → includes end_states s ≡ true
      → t ≢ requested
      → t ≢ accepted
      → update_suggestion_state states id t is_streaming ≡ states
  unfolding update_suggestion_state
  end_state_stays states id s t is_streaming known ended r a =
      elim (Bool-cases (can_update_state states id t is_streaming)) [
        | inl h ↦ elim ((can_update_state_iff states id t is_streaming).0 h) [
          | inl q ↦ absurd (r q)
          | inr (s', known', f) ↦
              let same : s' ≡ s = cc in
              absurd (Follows-ended is_streaming s t (rw same at f) ended a)
        ]
        | inr h ↦ rw h
      ]
