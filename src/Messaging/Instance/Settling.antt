-- ===== src/Messaging/Instance/Settling.antt =====
-- How often the promise of a request is resolved or rejected.
use khulnasoft_lsp.Base.{
  ℕ, suc, true, false, List, [], ◌∷◌, ◌++◌, String, Option, none, some, is_some, text_key,
  number_key, ◌===◌, ===_iff, ◌&&◌, contains, if◌then◌else◌, if_both, if_cases, ◌≡◌, refl, arith,
  sym, ◌∙◌, Bool-cases, inl, inr,
}
use khulnasoft_lsp.Base.JsMap
use khulnasoft_lsp.Base.JsMap.{JsMap, get-set}
use khulnasoft_lsp.Messaging.Instance.Frames.{told, replied}
use khulnasoft_lsp.Messaging.Instance.{
  Address, Response, success, failure, Promised, pending, resolved, rejected, InstanceBus, new,
  publish, send_notification, on_notification, on_request, send_request, settle, outcome_of,
  handle_response, is_addressed, receive_response, time_out, receive_request, receive_notification,
  release_notification, release_request, dispose, Event, notification_sent, notification_handled,
  request_handled, notification_released, request_released, request_sent, response_received,
  request_received, notification_received, timed_out, disposed, step,
}
use khulnasoft_lsp.Messaging.Instance.Requests.{
  is_pending, IsAllowed, IsReachable, start, stepped, IsTimed, IsReachable-IsTimed, get-settle,
}

-- How often a request stands in a list
unfoldable pub times : String → List String → ℕ
times id [] = 0
times id (j ∷ js) = let rest = times id js in if j === id then suc rest else rest

times-push :
    (id j : String) (js : List String)
    → times id (js ++ j ∷ []) ≡ (if j === id then suc (times id js) else times id js)
unfolding times
times-push id j [] = refl
times-push id j (k ∷ js) = ground (arith, times-push id j js)

module _ {ℓ} {P : Type ℓ} where
  -- One for a promise that has settled
  abbrev pub settled_count : Option (Promised P) → ℕ
  settled_count (some (resolved payload)) = 1
  settled_count (some (rejected reason)) = 1
  settled_count _ = 0

  abbrev IsCounted : String → InstanceBus P → Type 0
  IsCounted j bus = times j bus.settlements ≡ settled_count (JsMap.get bus.promises j)

  uncounted : (found : Option (Promised P)) → is_pending found ≡ true → settled_count found ≡ 0
  uncounted none h = refl
  uncounted (some pending) h = refl
  uncounted (some (resolved payload)) h = cc
  uncounted (some (rejected reason)) h = cc

  settled-IsCounted :
      (id j : String) (o : Promised P) (bus : InstanceBus P)
      → settled_count (some o) ≡ 1
      → is_pending (JsMap.get bus.promises id) ≡ true
      → IsCounted j bus
      → times j (bus.settlements ++ id ∷ [])
        ≡ settled_count (JsMap.get (settle id o bus.promises) j)
  settled-IsCounted id j o bus q p h = elim (Bool-cases (id === j)) [
    | inl e ↦
        let same : id ≡ j = (===_iff id j).0 e in
        let none_yet : settled_count (JsMap.get bus.promises j) ≡ 0 =
          rw same at (uncounted (JsMap.get bus.promises id) p) in
        rw (times-push j id bus.settlements, get-settle id j o bus.promises, e, p, q)
          (omega (arith, h, none_yet))
    | inr e ↦ rw (times-push j id bus.settlements, get-settle id j o bus.promises, e) h
  ]

  counted_outcome : (r : Response P) → settled_count (some (outcome_of r)) ≡ 1
  counted_outcome (success payload) = refl
  counted_outcome (failure reason) = refl

  unsent : (found : Option (Promised P)) → is_some found ≡ false → settled_count found ≡ 0
  unsent none h = refl
  unsent (some promise) h = cc

  sent-IsCounted :
      (id type j : String) (payload : P) (bus : InstanceBus P)
      → JsMap.has bus.promises id ≡ false
      → IsCounted j bus
      → IsCounted j (send_request id type payload bus)
  unfolding send_request publish JsMap.has
  sent-IsCounted id type j payload bus fresh h = elim (Bool-cases (id === j)) [
    | inl e ↦
        let same : id ≡ j = (===_iff id j).0 e in
        let none_yet : settled_count (JsMap.get bus.promises j) ≡ 0 =
          rw same at (unsent (JsMap.get bus.promises id) fresh) in
        rw (get-set bus.promises id j pending, e) (h ∙ none_yet)
    | inr e ↦ rw (get-set bus.promises id j pending, e) h
  ]

  response-IsCounted :
      (address : Address) (id j : String) (r : Response P) (bus : InstanceBus P)
      → IsTimed bus id
      → IsCounted j bus
      → IsCounted j (receive_response address id r bus)
  unfolding receive_response handle_response
  response-IsCounted address id j r bus t h =
      if_cases (IsCounted j) (is_addressed address bus && contains bus.pending_responses id) _ _
        (λ q.
          settled-IsCounted id j (outcome_of r) bus (counted_outcome r) (t.1.0 (ground arith)) h)
        (λ q. h)

  time_out-IsCounted :
      (id j : String) (bus : InstanceBus P)
      → IsTimed bus id
      → IsCounted j bus
      → IsCounted j (time_out id bus)
  unfolding time_out
  time_out-IsCounted id j bus t h =
      if_cases (IsCounted j) (contains bus.timers id) _ _
        (λ q. settled-IsCounted id j (rejected (some "Request timed out")) bus refl (sym t.0 ∙ q) h)
        (λ q. h)

  step-IsCounted :
      (event : Event P) (j : String) (bus : InstanceBus P)
      → IsAllowed event bus
      → ((id : String) → IsTimed bus id)
      → IsCounted j bus
      → IsCounted j (step event bus)
  unfolding step send_notification publish on_notification on_request dispose receive_request
      receive_notification release_notification release_request
  step-IsCounted (notification_sent type payload) j bus a t h = h
  step-IsCounted (notification_handled type handler) j bus a t h = h
  step-IsCounted (request_handled type handler) j bus a t h = h
  step-IsCounted (notification_released type) j bus a t h = h
  step-IsCounted (request_released type) j bus a t h = h
  step-IsCounted (request_sent id type payload) j bus a t h =
      sent-IsCounted id type j payload bus a h
  step-IsCounted (response_received address id response) j bus a t h =
      response-IsCounted address id j response bus (t id) h
  step-IsCounted (notification_received address type payload) j bus a t h =
      if_both (IsCounted j) (is_addressed address bus) _ _
        (told (IsCounted j) type payload (JsMap.get bus.notification_events type) bus (λ l. h)) h
  step-IsCounted (request_received address id type payload) j bus a t h =
      if_both (IsCounted j) (is_addressed address bus) _ _
        (replied (IsCounted j) id type payload (JsMap.get bus.request_events type) bus (λ l. h)) h
  step-IsCounted (timed_out id) j bus a t h = time_out-IsCounted id j bus (t id) h
  step-IsCounted disposed j bus a t h = h

  -- On a bus that its events lead to from a new one, with new ids for its requests: `resolve` or `reject` was called exactly once for
  -- a request whose promise has settled, and never for another, whatever responses came and timers fired.
  pub IsReachable-settled_count :
      (bus : InstanceBus P) (id : String)
      → IsReachable bus
      → times id bus.settlements ≡ settled_count (JsMap.get bus.promises id)
  unfolding new times JsMap.get
  IsReachable-settled_count _ id (start address) = refl
  IsReachable-settled_count _ j (stepped bus event allowed r) =
      step-IsCounted event j bus allowed (λ id. IsReachable-IsTimed bus id r)
        (IsReachable-settled_count bus j r)
