-- ===== src/Tracking/Events.antt =====
-- src/common/tracking/code_suggestions/constants.ts
use khulnasoft_lsp.Base.{
  ℕ, Bool, List, [], ◌∷◌, Option, none, some, eqb, any, ◌↔◌, ◌≡◌, true, arith,
}

-- `CODE_SUGGESTIONS_TRACKING_EVENTS`
pub data TrackingEvent : Type 0 where
  requested loaded not_provided shown errored accepted rejected cancelled : TrackingEvent
  stream_started stream_completed : TrackingEvent

abbrev index : TrackingEvent → ℕ
index requested = 0
index loaded = 1
index not_provided = 2
index shown = 3
index errored = 4
index accepted = 5
index rejected = 6
index cancelled = 7
index stream_started = 8
index stream_completed = 9

abbrev pub is_event : TrackingEvent → TrackingEvent → Bool
is_event a b = eqb (index a) (index b)

pub is_event_iff : (a b : TrackingEvent) → (is_event a b ≡ true) ↔ (a ≡ b)
is_event_iff a b = ground arith

unfoldable pub includes : List TrackingEvent → TrackingEvent → Bool
unfolding any
includes events e = any (is_event e) events

-- `endStatesGraph.get(s)`
unfoldable pub end_states_graph : TrackingEvent → Option (List TrackingEvent)
end_states_graph errored = some []
end_states_graph cancelled = some []
end_states_graph not_provided = some []
end_states_graph rejected = some []
end_states_graph accepted = some []
end_states_graph _ = none

-- `nonStreamingSuggestionStateGraph.get(s)`
unfoldable pub non_streaming_suggestion_state_graph : TrackingEvent → Option (List TrackingEvent)
unfolding end_states_graph
non_streaming_suggestion_state_graph requested = some (loaded ∷ errored ∷ [])
non_streaming_suggestion_state_graph loaded = some (shown ∷ cancelled ∷ not_provided ∷ [])
non_streaming_suggestion_state_graph shown = some (accepted ∷ rejected ∷ [])
non_streaming_suggestion_state_graph s = end_states_graph s

-- `streamingSuggestionStateGraph.get(s)`
unfoldable pub streaming_suggestion_state_graph : TrackingEvent → Option (List TrackingEvent)
unfolding end_states_graph
streaming_suggestion_state_graph requested = some (stream_started ∷ errored ∷ cancelled ∷ [])
streaming_suggestion_state_graph stream_started = some (shown ∷ errored ∷ stream_completed ∷ [])
streaming_suggestion_state_graph shown =
    some (errored ∷ stream_completed ∷ accepted ∷ rejected ∷ [])
streaming_suggestion_state_graph stream_completed = some (accepted ∷ rejected ∷ not_provided ∷ [])
streaming_suggestion_state_graph s = end_states_graph s

abbrev pub end_states : List TrackingEvent
end_states = errored ∷ cancelled ∷ not_provided ∷ rejected ∷ accepted ∷ []

-- `INSTANCE_TRACKING_EVENTS_MAP`: whether the instance has an event of its own for it.
pub data InstanceEvent : Type 0 where
  code_suggestion_shown_in_ide code_suggestion_accepted_in_ide : InstanceEvent
  code_suggestion_rejected_in_ide : InstanceEvent

unfoldable pub instance_tracking_events_map : TrackingEvent → Option InstanceEvent
instance_tracking_events_map shown = some code_suggestion_shown_in_ide
instance_tracking_events_map accepted = some code_suggestion_accepted_in_ide
instance_tracking_events_map rejected = some code_suggestion_rejected_in_ide
instance_tracking_events_map _ = none
