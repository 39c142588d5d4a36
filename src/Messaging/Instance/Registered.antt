-- ===== src/Messaging/Instance/Registered.antt =====
-- Which handlers serve the requests and the notifications of the webview.
use khulnasoft_lsp.Base.{
  Bool, true, false, List, [], ◌∷◌, ◌++◌, String, Option, none, some, text_key, number_key, ◌===◌,
  ◌&&◌, contains, if◌then◌else◌, ◌≡◌, refl, sym, ◌∙◌, if_both,
}
use mathlib.Core.List.{append-nil}
use khulnasoft_lsp.Base.JsMap
use khulnasoft_lsp.Base.JsMap.{JsMap, get-set, get-delete}
use khulnasoft_lsp.Messaging.Registry.{Outcome}
use khulnasoft_lsp.Messaging.Instance.Frames.{told, replied}
use khulnasoft_lsp.Messaging.Instance.{
  Address, Response, publish_response, InstanceBus, Sent, plugin_response, new, publish,
  send_notification, on_notification, on_request, send_request, receive_response, handle_response,
  time_out, is_addressed, response_of, answer_with, receive_request, tell_with,
  receive_notification, release_notification, release_request, dispose, Event, notification_sent,
  notification_handled, request_handled, notification_released, request_released, request_sent,
  response_received, notification_received, request_received, timed_out, disposed, step, run,
}

abbrev pub is_same : Address → Address → Bool
is_same a b = a.webview_id === b.webview_id && a.webview_instance_id === b.webview_instance_id

module _ {ℓ} {P : Type ℓ} where
  -- The handlers of a type of request and of that type of notification, after events: each is the one registered last, unless its
  -- type was released since, and there is none once the bus is disposed.
  abbrev pub served_by :
      String
      → Option (P → Outcome P)
      → Option (P → Outcome P)
      → List (Event P)
      → Option (P → Outcome P) × Option (P → Outcome P)
  served_by type r n [] = (r, n)
  served_by type r n (request_handled t handler ∷ es) =
      served_by type (if t === type then some handler else r) n es
  served_by type r n (request_released t ∷ es) =
      served_by type (if t === type then none else r) n es
  served_by type r n (notification_handled t handler ∷ es) =
      served_by type r (if t === type then some handler else n) es
  served_by type r n (notification_released t ∷ es) =
      served_by type r (if t === type then none else n) es
  served_by type r n (disposed ∷ es) = (none, none)
  served_by type r n (_ ∷ es) = served_by type r n es

  -- A response, if there is one
  abbrev pub answer : Address → String → String → Option (Response P) → List (Address × Sent P)
  answer address id type none = []
  answer address id type (some response) = (address, plugin_response id type response) ∷ []

  -- What is sent for a request
  abbrev pub answers :
      Address → String → String → P → Option (P → Outcome P) → List (Address × Sent P)
  answers address id type payload none = []
  answers address id type payload (some handler) =
      answer address id type (response_of (handler payload))

  -- What the handler of a notification gives
  abbrev pub tells : String → P → Option (P → Outcome P) → List (String × Outcome P)
  tells type payload none = []
  tells type payload (some handler) = (type, handler payload) ∷ []

  -- The handlers that are there, while the bus is subscribed
  abbrev found :
      Bool
      → Option (P → Outcome P)
      → Option (P → Outcome P)
      → Option (P → Outcome P) × Option (P → Outcome P)
  found true r n = (r, n)
  found false r n = (none, none)

  abbrev served : String → InstanceBus P → Option (P → Outcome P) × Option (P → Outcome P)
  served type bus =
      found bus.is_subscribed (JsMap.get bus.request_events type)
        (JsMap.get bus.notification_events type)

  -- What is kept of a bus by the rest of the events
  abbrev IsServed : String → List (Event P) → InstanceBus P → InstanceBus P → Type ℓ
  IsServed type es bus next =
      ((run es next).address ≡ bus.address)
      × (bus.is_subscribed ≡ true
          → served type (run es next)
            ≡ served_by type (JsMap.get bus.request_events type)
                (JsMap.get bus.notification_events type) es)
      × (bus.is_subscribed ≡ false → (run es next).is_subscribed ≡ false)

  run-IsServed :
      (type : String) (es : List (Event P)) (bus : InstanceBus P) → IsServed type es bus bus
  unfolding run step send_notification publish on_notification on_request release_notification
      release_request send_request receive_response handle_response time_out receive_request
      receive_notification dispose JsMap.get
  run-IsServed type [] bus = (refl, (λ h. rw h refl), λ h. h)
  run-IsServed type (notification_sent t x ∷ es) bus = run-IsServed type es _
  run-IsServed type (notification_handled t h ∷ es) bus =
      let i = run-IsServed type es (on_notification t h bus) in
      (i.0, (λ q. rw (get-set bus.notification_events t type h) at (i.1 q)), i.2)
  run-IsServed type (request_handled t h ∷ es) bus =
      let i = run-IsServed type es (on_request t h bus) in
      (i.0, (λ q. rw (get-set bus.request_events t type h) at (i.1 q)), i.2)
  run-IsServed type (notification_released t ∷ es) bus =
      let i = run-IsServed type es (release_notification t bus) in
      (i.0, (λ q. rw (get-delete bus.notification_events t type) at (i.1 q)), i.2)
  run-IsServed type (request_released t ∷ es) bus =
      let i = run-IsServed type es (release_request t bus) in
      (i.0, (λ q. rw (get-delete bus.request_events t type) at (i.1 q)), i.2)
  run-IsServed type (request_sent id t x ∷ es) bus = run-IsServed type es _
  run-IsServed type (response_received a id response ∷ es) bus =
      if_both (IsServed type es bus) (is_addressed a bus && contains bus.pending_responses id) _ _
        (run-IsServed type es _) (run-IsServed type es bus)
  run-IsServed type (notification_received a t x ∷ es) bus =
      if_both (IsServed type es bus) (is_addressed a bus) _ _
        (told (IsServed type es bus) t x (JsMap.get bus.notification_events t) bus
          (λ l. run-IsServed type es _))
        (run-IsServed type es bus)
  run-IsServed type (request_received a id t x ∷ es) bus =
      if_both (IsServed type es bus) (is_addressed a bus) _ _
        (replied (IsServed type es bus) id t x (JsMap.get bus.request_events t) bus
          (λ l. run-IsServed type es _))
        (run-IsServed type es bus)
  run-IsServed type (timed_out id ∷ es) bus =
      if_both (IsServed type es bus) (contains bus.timers id) _ _ (run-IsServed type es _)
        (run-IsServed type es bus)
  run-IsServed type (disposed ∷ es) bus =
      let i = run-IsServed type es (dispose bus) in (i.0, (λ q. rw (i.2 refl) refl), λ q. i.2 refl)

  sent_response :
      (id type : String) (o : Option (Response P)) (bus : InstanceBus P)
      → (publish_response id type o bus).outbox ≡ bus.outbox ++ answer bus.address id type o
  unfolding publish_response publish
  sent_response id type none bus = sym (append-nil bus.outbox)
  sent_response id type (some response) bus = refl

  answered :
      (id type : String) (payload : P) (subscribed same : Bool) (r n : Option (P → Outcome P))
      (bus : InstanceBus P)
      → (if subscribed && same then answer_with id type payload r bus else bus).outbox
        ≡ bus.outbox
          ++ (if same then answers bus.address id type payload (found subscribed r n).0 else [])
  unfolding answer_with
  answered id type payload true true none n bus = sym (append-nil bus.outbox)
  answered id type payload true true (some handler) n bus =
      sent_response id type (response_of (handler payload)) bus
  answered id type payload true false r n bus = sym (append-nil bus.outbox)
  answered id type payload false true r n bus = sym (append-nil bus.outbox)
  answered id type payload false false r n bus = sym (append-nil bus.outbox)

  notified :
      (type : String) (payload : P) (subscribed same : Bool) (r n : Option (P → Outcome P))
      (bus : InstanceBus P)
      → (if subscribed && same then tell_with type payload n bus else bus).notified
        ≡ bus.notified ++ (if same then tells type payload (found subscribed r n).1 else [])
  unfolding tell_with
  notified type payload true true r none bus = sym (append-nil bus.notified)
  notified type payload true true r (some handler) bus = refl
  notified type payload true false r n bus = sym (append-nil bus.notified)
  notified type payload false true r n bus = sym (append-nil bus.notified)
  notified type payload false false r n bus = sym (append-nil bus.notified)

  -- After whatever happened to a new bus, a request or a notification from its own address is given to the handler registered last for
  -- its type and not released since, and a request is answered with what the handler gives, unless it throws null or undefined;
  -- without a handler, from another address and once the bus is disposed nothing is sent or told.
  pub run-new-served :
      (es : List (Event P)) (address sender : Address) (id type : String) (payload : P)
      → ((receive_request sender id type payload (run es (new address))).outbox
          ≡ (run es (new address)).outbox
            ++ (if is_same sender address
                then answers address id type payload (served_by type none none es).0
                else []))
        × ((receive_notification sender type payload (run es (new address))).notified
            ≡ (run es (new address)).notified
              ++ (if is_same sender address
                  then tells type payload (served_by type none none es).1
                  else []))
  unfolding receive_request receive_notification is_addressed
  run-new-served es address sender id type payload =
      let bus = run es (new address) in
      let i : IsServed type es (new address) (new address) = run-IsServed type es (new address) in
      let from : bus.address ≡ address = unfold new in i.0 in
      let who : served type bus ≡ served_by type none none es = unfold new JsMap.get in i.1 refl in
      let r = JsMap.get bus.request_events type in
      let n = JsMap.get bus.notification_events type in
      let same = is_same sender bus.address in
      (
        answered id type payload bus.is_subscribed same r n bus ∙ rw (from, who) refl,
        notified type payload bus.is_subscribed same r n bus ∙ rw (from, who) refl,
      )
