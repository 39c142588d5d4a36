-- ===== src/Tracking/State.antt =====
-- src/common/tracking/code_suggestions/code_suggestions_telemetry_state_manager.ts. The log lines
-- are left out. Ids are strings; the model takes any keys with an equality test.
pub mod Lifecycle
pub mod Opened
use khulnasoft_lsp.Base.{
  Bool, true, false, not, List, [], ◌∷◌, Option, none, some, ◌&&◌, if◌then◌else◌, Key,
}
use khulnasoft_lsp.Base.JsMap
use khulnasoft_lsp.Base.JsMap.{JsMap}
use khulnasoft_lsp.Tracking.Events.{
  TrackingEvent, requested, accepted, is_event, includes, end_states,
  non_streaming_suggestion_state_graph, streaming_suggestion_state_graph,
}

unfoldable pub graph : Bool → TrackingEvent → Option (List TrackingEvent)
graph true s = streaming_suggestion_state_graph s
graph false s = non_streaming_suggestion_state_graph s

-- The two tests at the end of `canUpdateState`.
unfoldable pub can_follow : Option (List TrackingEvent) → TrackingEvent → Bool
can_follow none new_state = false
can_follow (some allowed_transitions) new_state =
    if not (includes allowed_transitions new_state) && not (is_event new_state accepted)
    then false
    else true

unfoldable pub can_update_from : Option TrackingEvent → TrackingEvent → Bool → Bool
unfolding can_follow graph
can_update_from none new_state is_streaming = false
can_update_from (some current_state) new_state is_streaming =
    can_follow (graph is_streaming current_state) new_state

-- `#codeSuggestionStates`
abbrev pub States {ℓ} : Type ℓ → Type ℓ
States TrackingId = JsMap TrackingId TrackingEvent

module _ {ℓ} {TrackingId : Type ℓ} ⦃e : Key TrackingId⦄ where
  unfoldable pub can_update_state : States TrackingId → TrackingId → TrackingEvent → Bool → Bool
  unfolding can_update_from
  can_update_state states unique_tracking_id new_state is_streaming =
      if is_event new_state requested
      then true
      else can_update_from (JsMap.get states unique_tracking_id) new_state is_streaming

  unfoldable pub update_suggestion_state :
      States TrackingId → TrackingId → TrackingEvent → Bool → States TrackingId
  update_suggestion_state states unique_tracking_id new_state is_streaming =
      if not (can_update_state states unique_tracking_id new_state is_streaming)
      then states
      else JsMap.set states unique_tracking_id new_state

  unfoldable pub get_opened_suggestions : States TrackingId → List TrackingId
  get_opened_suggestions [] = []
  get_opened_suggestions ((unique_tracking_id, state) ∷ rest) =
      if not (includes end_states state)
      then unique_tracking_id ∷ get_opened_suggestions rest
      else get_opened_suggestions rest

  unfoldable pub delete_suggestion : States TrackingId → TrackingId → States TrackingId
  delete_suggestion states unique_tracking_id = JsMap.delete states unique_tracking_id
