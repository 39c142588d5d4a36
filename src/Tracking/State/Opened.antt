-- ===== src/Tracking/State/Opened.antt =====
-- `getOpenedSuggestions` lists the suggestions that have not ended, and no other.
use khulnasoft_lsp.Base.{
  Bool, false, not, [], ◌∷◌, Option, none, some, ◌≡◌, refl, arith, Key, contains,
}
use khulnasoft_lsp.Base.JsMap
use khulnasoft_lsp.Tracking.Events.{TrackingEvent, includes, end_states}
use khulnasoft_lsp.Tracking.State.{States, get_opened_suggestions}

-- A suggestion is known and has not ended.
abbrev pub is_ongoing : Option TrackingEvent → Bool
is_ongoing none = false
is_ongoing (some s) = not (includes end_states s)

module _ {ℓ} {TrackingId : Type ℓ} ⦃e : Key TrackingId⦄ where
  contains-opened_of_fresh :
      (states : States TrackingId) (id : TrackingId)
      → JsMap.has states id ≡ false
      → contains (get_opened_suggestions states) id ≡ false
  unfolding JsMap.has JsMap.get contains get_opened_suggestions
  contains-opened_of_fresh [] id h = refl
  contains-opened_of_fresh ((j, s) ∷ rest) id h =
      ground (arith, contains-opened_of_fresh rest id, e.same_iff j id)

  -- With distinct ids, a suggestion is listed as opened exactly if it has a state that is no end
  -- state.
  pub contains-get_opened_suggestions :
      (states : States TrackingId) (id : TrackingId)
      → JsMap.Distinct states
      → contains (get_opened_suggestions states) id ≡ is_ongoing (JsMap.get states id)
  unfolding contains get_opened_suggestions JsMap.get
  contains-get_opened_suggestions [] id d = refl
  contains-get_opened_suggestions ((j, s) ∷ rest) id d = ground (
    arith,
    contains-get_opened_suggestions rest id,
    contains-opened_of_fresh rest j,
    e.same_iff j id,
  )
