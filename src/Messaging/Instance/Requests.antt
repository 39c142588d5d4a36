-- ===== src/Messaging/Instance/Requests.antt =====
-- The life of a request to the plugin.
use khulnasoft_lsp.Base.{
  Bool, true, false, String, Option, none, some, text_key, number_key, ◌===◌, ===_iff, ===_refl,
  ◌&&◌, contains, contains-add, contains-remove, remove, if◌then◌else◌, ◌≡◌, refl, arith, ap,
  Bool-cases, inl, inr, if_both,
}
use khulnasoft_lsp.Base.JsMap
use khulnasoft_lsp.Base.JsMap.{JsMap, get-set}
use khulnasoft_lsp.Messaging.Instance.Frames.{told, replied}
use khulnasoft_lsp.Messaging.Instance.{
  Address, Response, success, failure, Promised, pending, resolved, rejected, InstanceBus, new,
  publish, send_notification, on_notification, on_request, send_request, settle, settle_with,
  outcome_of, handle_response, is_addressed, receive_response, time_out, receive_request,
  receive_notification, release_notification, release_request, notification_released,
  request_released, notification_received, dispose, Event, notification_sent, notification_handled,
  request_handled, request_sent, response_received, request_received, timed_out, disposed, step,
}

module _ {ℓ} {P : Type ℓ} where
  abbrev pub is_pending : Option (Promised P) → Bool
  is_pending (some pending) = true
  is_pending _ = false

  -- The ids that are generated are new.
  abbrev pub IsAllowed : Event P → InstanceBus P → Type 0
  IsAllowed (request_sent id type payload) bus = JsMap.has bus.promises id ≡ false
  IsAllowed _ bus = Unit

  pub data IsReachable : InstanceBus P → Type ℓ where
    start : (address : Address) → IsReachable (new address)
    stepped :
        (bus : InstanceBus P) (event : Event P)
        → IsAllowed event bus
        → IsReachable bus
        → IsReachable (step event bus)

  get-settle_with :
      (id j : String) (o : Promised P) (m : JsMap String (Promised P)) (found : Option (Promised P))
      → JsMap.get (settle_with id o found m) j
        ≡ (if (id === j) && is_pending found then some o else JsMap.get m j)
  unfolding settle_with
  get-settle_with id j o m none = ground arith
  get-settle_with id j o m (some pending) = ground (arith, get-set m id j o)
  get-settle_with id j o m (some (resolved r)) = ground arith
  get-settle_with id j o m (some (rejected r)) = ground arith

  pub get-settle :
      (id j : String) (o : Promised P) (m : JsMap String (Promised P))
      → JsMap.get (settle id o m) j
        ≡ (if (id === j) && is_pending (JsMap.get m id) then some o else JsMap.get m j)
  unfolding settle
  get-settle id j o m = get-settle_with id j o m (JsMap.get m id)

  -- The request with the id is pending exactly as long as it has a timer, and a response to it is
  -- expected only while it is pending, and then always if the bus is not disposed.
  abbrev pub IsTimed : InstanceBus P → String → Type 0
  IsTimed bus id =
      (contains bus.timers id ≡ is_pending (JsMap.get bus.promises id))
      × ((contains bus.pending_responses id ≡ true → is_pending (JsMap.get bus.promises id) ≡ true)
          × (bus.is_subscribed ≡ true
              → is_pending (JsMap.get bus.promises id) ≡ true
              → contains bus.pending_responses id ≡ true))

  sent-IsTimed :
      (id type j : String) (payload : P) (bus : InstanceBus P)
      → IsTimed bus j
      → IsTimed (send_request id type payload bus) j
  unfolding send_request publish
  sent-IsTimed id type j payload bus h = ground (
    arith,
    h.0,
    h.1.0,
    h.1.1,
    get-set bus.promises id j pending,
    contains-add bus.timers id j,
    contains-add bus.pending_responses id j,
  )

  settled-IsTimed :
      (id j : String) (o : Promised P) (bus : InstanceBus P)
      → is_pending (some o) ≡ false
      → IsTimed bus j
      → IsTimed
          (record bus {
            promises = settle id o bus.promises;
            timers = remove bus.timers id;
            pending_responses = remove bus.pending_responses id;
          })
          j
  settled-IsTimed id j o bus q h = ground (
    arith,
    q,
    h.0,
    h.1.0,
    h.1.1,
    ===_iff id j,
    get-settle id j o bus.promises,
    contains-remove bus.timers id j,
    contains-remove bus.pending_responses id j,
  )

  response-IsTimed :
      (address : Address) (id j : String) (r : Response P) (bus : InstanceBus P)
      → IsTimed bus j
      → IsTimed (receive_response address id r bus) j
  unfolding receive_response handle_response
  response-IsTimed address id j r bus h =
      elim (Bool-cases (is_addressed address bus && contains bus.pending_responses id)) [
        | inl q ↦ rw q (settled-IsTimed id j (outcome_of r) bus (settles r) h)
        | inr q ↦ rw q h
      ]
    where
      settles : (r : Response P) → is_pending (some (outcome_of r)) ≡ false
      settles (success payload) = refl
      settles (failure reason) = refl

  time_out-IsTimed :
      (id j : String) (bus : InstanceBus P) → IsTimed bus j → IsTimed (time_out id bus) j
  unfolding time_out
  time_out-IsTimed id j bus h = elim (Bool-cases (contains bus.timers id)) [
    | inl q ↦ rw q (settled-IsTimed id j (rejected (some "Request timed out")) bus refl h)
    | inr q ↦ rw q h
  ]

  request-IsTimed :
      (address : Address) (id type j : String) (payload : P) (bus : InstanceBus P)
      → IsTimed bus j
      → IsTimed (receive_request address id type payload bus) j
  unfolding receive_request
  request-IsTimed address id type j payload bus h =
      if_both (λ (b : InstanceBus P). IsTimed b j) (is_addressed address bus) _ _
        (replied (λ (b : InstanceBus P). IsTimed b j) id type payload
          (JsMap.get bus.request_events type) bus (λ sent. h))
        h

  step-IsTimed :
      (event : Event P) (j : String) (bus : InstanceBus P)
      → IsTimed bus j
      → IsTimed (step event bus) j
  unfolding step contains send_notification publish on_notification on_request dispose
      receive_notification release_notification release_request
  step-IsTimed (notification_sent type payload) j bus h = h
  step-IsTimed (notification_handled type handler) j bus h = h
  step-IsTimed (request_handled type handler) j bus h = h
  step-IsTimed (request_sent id type payload) j bus h = sent-IsTimed id type j payload bus h
  step-IsTimed (response_received address id response) j bus h =
      response-IsTimed address id j response bus h
  step-IsTimed (request_received address id type payload) j bus h =
      request-IsTimed address id type j payload bus h
  step-IsTimed (notification_received address type payload) j bus h =
      if_both (λ (b : InstanceBus P). IsTimed b j) (is_addressed address bus) _ _
        (told (λ (b : InstanceBus P). IsTimed b j) type payload
          (JsMap.get bus.notification_events type) bus (λ told. h))
        h
  step-IsTimed (notification_released type) j bus h = h
  step-IsTimed (request_released type) j bus h = h
  step-IsTimed (timed_out id) j bus h = time_out-IsTimed id j bus h
  step-IsTimed disposed j bus h = (h.0, ((λ h. cc), λ h k. cc))

  -- On a bus that its events lead to from a new one, a request has a timer exactly as long as its
  -- promise is pending; and while it is, and the bus is not disposed, a response to it is expected.
  pub IsReachable-IsTimed : (bus : InstanceBus P) (id : String) → IsReachable bus → IsTimed bus id
  unfolding new contains JsMap.get
  IsReachable-IsTimed _ id (start address) = (refl, ((λ h. h), λ h k. k))
  IsReachable-IsTimed _ j (stepped bus event allowed r) =
      step-IsTimed event j bus (IsReachable-IsTimed bus j r)

  -- On such a bus a promise that is pending is rejected when the time of its request is up, and the
  -- promises of other requests stay.
  pub time_out-rejects :
      (bus : InstanceBus P) (id j : String)
      → IsReachable bus
      → JsMap.get bus.promises id ≡ some pending
      → JsMap.get (time_out id bus).promises j ≡ (
          if id === j then some (rejected (some "Request timed out")) else JsMap.get bus.promises j)
  unfolding time_out
  time_out-rejects bus id j r h =
      let timer : contains bus.timers id ≡ true = rw h at ((IsReachable-IsTimed bus id r).0) in
      rw (timer, get-settle id j (rejected (some "Request timed out")) bus.promises, h)
        (ground arith)

  -- A response from the own address settles a pending promise, unless the bus is disposed, and the promises of
  -- other requests stay.
  pub receive_response-settles :
      (bus : InstanceBus P) (id j : String) (response : Response P)
      → IsReachable bus
      → bus.is_subscribed ≡ true
      → JsMap.get bus.promises id ≡ some pending
      → JsMap.get (receive_response bus.address id response bus).promises j
        ≡ (if id === j then some (outcome_of response) else JsMap.get bus.promises j)
  unfolding receive_response is_addressed handle_response
  receive_response-settles bus id j response r open_ h =
      let expected : contains bus.pending_responses id ≡ true =
        (IsReachable-IsTimed bus id r).1.1 open_ (ap is_pending h) in
      rw
        (
          open_,
          expected,
          ===_refl bus.address.webview_id,
          ===_refl bus.address.webview_instance_id,
          get-settle id j (outcome_of response) bus.promises,
          h,
        )
        (ground arith)
