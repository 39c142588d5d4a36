-- ===== src/Tracking/Tests.antt =====
-- The tracking of suggestions at concrete inputs.
use khulnasoft_lsp.Base.{ℕ, true, false, [], ◌∷◌, some, ◌≡◌, refl, arith, ◌⊎◌, ◌↔◌, number_key}
use khulnasoft_lsp.Base.JsMap
use khulnasoft_lsp.CircuitBreaker.Fixed
use khulnasoft_lsp.Tracking.Events.{TrackingEvent, requested, shown, accepted, rejected, includes}
use khulnasoft_lsp.Tracking.State.{States, can_update_state}
use khulnasoft_lsp.Tracking.State.Lifecycle.{Follows, can_update_state_iff}
use khulnasoft_lsp.Tracking.InstanceTracker.{
  InstanceTracker, ContextUpdate, set_code_suggestions_context, is_streaming_suggestion,
  auto_rejects,
}
use khulnasoft_lsp.Tracking.InstanceTracker.Sending.{set_context-rejects_shown}

abbrev two : States ℕ
two = (1, shown) ∷ (2, rejected) ∷ []

can_update_state_iff_example : (can_update_state two 1 rejected false ≡ true) ↔ (
    (rejected ≡ requested)
    ⊎ ((s : TrackingEvent) × (JsMap.get two 1 ≡ some s) × Follows false s rejected))
can_update_state_iff_example = can_update_state_iff two 1 rejected false

abbrev tracker : InstanceTracker ℕ
tracker = record {
  contexts = [];
  breaker = Fixed.new 4 10000;
  options = record { enabled = true; actions = accepted ∷ [] };
  states = two;
  invalid_instance_msg_logged = false;
  outbox = [];
  gc_timers = [];
}

abbrev whole : ContextUpdate
whole = record { is_streaming = some false; suggestion_options = [] }

set_context-rejects_shown_example :
    JsMap.get (set_code_suggestions_context 3 whole tracker).states 1 ≡ some rejected
unfolding Fixed.is_open Fixed.new auto_rejects includes JsMap.has JsMap.get is_streaming_suggestion
set_context-rejects_shown_example =
    set_context-rejects_shown 3 1 whole tracker refl refl refl (refl, (refl, tt)) (omega arith) refl
      refl
