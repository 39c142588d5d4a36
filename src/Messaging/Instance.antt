-- ===== src/Messaging/Instance.antt =====
-- `packages/lib_webview/src/services/connection/webview_instance_message_bus.ts`. The runtime bus, the
-- ids of requests and the timers are the world's: what is published is recorded, an id comes with the
-- call, and a timer is the id of its request. A response is assumed not to come while its request is
-- being published. Log lines are left out.
pub mod Frames
pub mod Registered
pub mod Requests
pub mod Settling
use khulnasoft_lsp.Base.{
  ℕ, Bool, true, false, List, [], ◌∷◌, ◌++◌, String, Option, none, some, text_key, number_key,
  ◌===◌, ◌&&◌, contains, add, remove, if◌then◌else◌,
}
use khulnasoft_lsp.Base.JsMap
use khulnasoft_lsp.Base.JsMap.{JsMap}
use khulnasoft_lsp.Messaging.Registry.{
  Thrown, an_error, a_string, nothing, anything, Outcome, returned, threw,
}

-- `WebviewAddress`
pub record Address : Type 0 where
  pub webview_id : ℕ
  pub webview_instance_id : ℕ

-- A response, successful or failed.
pub data Response {ℓ} (P : Type ℓ) : Type ℓ where
  success : P → Response P
  failure : Option String → Response P

-- The promise of `sendRequest`.
pub data Promised {ℓ} (P : Type ℓ) : Type ℓ where
  pending : Promised P
  resolved : P → Promised P
  rejected : Option String → Promised P

-- What is published on the runtime bus, with the address of the instance.
pub data Sent {ℓ} (P : Type ℓ) : Type ℓ where
  plugin_notification : String → P → Sent P
  plugin_request : String → String → P → Sent P
  plugin_response : String → String → Response P → Sent P

-- `is_subscribed`: the subscriptions to the runtime bus are there. `promises` are those that
-- `sendRequest` has returned, by their request. `notified` is what the handlers of notifications gave.
-- `settlements` has the request of every call of the `resolve` or `reject` of its promise, also of a call without effect.
pub record InstanceBus {ℓ} (P : Type ℓ) : Type ℓ where
  pub address : Address
  pub is_subscribed : Bool
  pub notification_events : JsMap String (P → Outcome P)
  pub request_events : JsMap String (P → Outcome P)
  pub pending_responses : List String
  pub timers : List String
  pub promises : JsMap String (Promised P)
  pub outbox : List (Address × Sent P)
  pub notified : List (String × Outcome P)
  pub settlements : List String

-- The failure with `(error as Error).message`, which throws if the error is null or undefined.
abbrev pub failure_of {ℓ} : {P : Type ℓ} → Thrown → Option (Response P)
failure_of (an_error message) = some (failure (some message))
failure_of (a_string _) = some (failure none)
failure_of nothing = none
failure_of anything = some (failure none)

-- What can happen to the bus.
pub data Event {ℓ} (P : Type ℓ) : Type ℓ where
  notification_sent : String → P → Event P
  notification_handled request_handled : String → (P → Outcome P) → Event P
  notification_released request_released : String → Event P
  request_sent : String → String → P → Event P
  response_received : Address → String → Response P → Event P
  notification_received : Address → String → P → Event P
  request_received : Address → String → String → P → Event P
  timed_out : String → Event P
  disposed : Event P

module _ {ℓ} {P : Type ℓ} where
  unfoldable pub new : Address → InstanceBus P
  new address = record {
    address = address;
    is_subscribed = true;
    notification_events = [];
    request_events = [];
    pending_responses = [];
    timers = [];
    promises = [];
    outbox = [];
    notified = [];
    settlements = [];
  }

  unfoldable pub publish : Sent P → InstanceBus P → InstanceBus P
  publish message bus = record bus { outbox = bus.outbox ++ (bus.address, message) ∷ [] }

  unfoldable pub send_notification : String → P → InstanceBus P → InstanceBus P
  unfolding publish
  send_notification type payload bus = publish (plugin_notification type payload) bus

  unfoldable pub on_notification : String → (P → Outcome P) → InstanceBus P → InstanceBus P
  on_notification type handler bus = record bus {
    notification_events = JsMap.set bus.notification_events type handler;
  }

  unfoldable pub on_request : String → (P → Outcome P) → InstanceBus P → InstanceBus P
  on_request type handler bus = record bus {
    request_events = JsMap.set bus.request_events type handler;
  }

  -- The disposables that `onNotification` and `onRequest` return
  unfoldable pub release_notification : String → InstanceBus P → InstanceBus P
  release_notification type bus = record bus {
    notification_events = JsMap.delete bus.notification_events type;
  }

  unfoldable pub release_request : String → InstanceBus P → InstanceBus P
  release_request type bus = record bus { request_events = JsMap.delete bus.request_events type }

  -- `sendRequest`, with the id that was generated.
  unfoldable pub send_request : String → String → P → InstanceBus P → InstanceBus P
  unfolding publish
  send_request id type payload bus =
      let published = publish (plugin_request id type payload) bus in
      record published {
        pending_responses = add bus.pending_responses id;
        timers = add bus.timers id;
        promises = JsMap.set bus.promises id pending;
      }

  -- A promise settles once.
  unfoldable pub settle_with :
      String
      → Promised P
      → Option (Promised P)
      → JsMap String (Promised P)
      → JsMap String (Promised P)
  settle_with id outcome (some pending) promises = JsMap.set promises id outcome
  settle_with id outcome _ promises = promises

  unfoldable pub settle :
      String → Promised P → JsMap String (Promised P) → JsMap String (Promised P)
  unfolding settle_with
  settle id outcome promises = settle_with id outcome (JsMap.get promises id) promises

  abbrev pub outcome_of : Response P → Promised P
  outcome_of (success payload) = resolved payload
  outcome_of (failure reason) = rejected reason

  -- The handler that `sendRequest` registers.
  unfoldable pub handle_response : String → Response P → InstanceBus P → InstanceBus P
  unfolding settle
  handle_response id response bus = record bus {
    promises = settle id (outcome_of response) bus.promises;
    timers = remove bus.timers id;
    pending_responses = remove bus.pending_responses id;
    settlements = bus.settlements ++ id ∷ [];
  }

  unfoldable pub is_addressed : Address → InstanceBus P → Bool
  is_addressed address bus =
      bus.is_subscribed
      && (address.webview_id === bus.address.webview_id
          && address.webview_instance_id === bus.address.webview_instance_id)

  -- `webview:response`. Without a handler for the request the error is logged.
  unfoldable pub receive_response : Address → String → Response P → InstanceBus P → InstanceBus P
  unfolding handle_response is_addressed
  receive_response address id response bus =
      if is_addressed address bus && contains bus.pending_responses id
      then handle_response id response bus
      else bus

  -- The timer of a request fires after ten seconds, unless it was cleared.
  unfoldable pub time_out : String → InstanceBus P → InstanceBus P
  unfolding settle
  time_out id bus =
      if contains bus.timers id
      then record bus {
        promises = settle id (rejected (some "Request timed out")) bus.promises;
        timers = remove bus.timers id;
        pending_responses = remove bus.pending_responses id;
        settlements = bus.settlements ++ id ∷ [];
      }
      else bus

  -- The handler of a notification, if there is one; an error is logged.
  unfoldable pub tell_with : String → P → Option (P → Outcome P) → InstanceBus P → InstanceBus P
  tell_with type payload none bus = bus
  tell_with type payload (some handler) bus = record bus {
    notified = bus.notified ++ (type, handler payload) ∷ [];
  }

  -- `webview:notification`
  unfoldable pub receive_notification : Address → String → P → InstanceBus P → InstanceBus P
  unfolding tell_with is_addressed
  receive_notification address type payload bus =
      if is_addressed address bus
      then tell_with type payload (JsMap.get bus.notification_events type) bus
      else bus

  abbrev pub response_of : Outcome P → Option (Response P)
  response_of (returned result) = some (success result)
  response_of (threw error) = failure_of error

  unfoldable pub publish_response :
      String → String → Option (Response P) → InstanceBus P → InstanceBus P
  unfolding publish
  publish_response id type none bus = bus
  publish_response id type (some response) bus = publish (plugin_response id type response) bus

  -- The handler that `onRequest` registers, if there is one.
  unfoldable pub answer_with :
      String → String → P → Option (P → Outcome P) → InstanceBus P → InstanceBus P
  unfolding publish_response
  answer_with id type payload none bus = bus
  answer_with id type payload (some handler) bus =
      publish_response id type (response_of (handler payload)) bus

  -- `webview:request`
  unfoldable pub receive_request : Address → String → String → P → InstanceBus P → InstanceBus P
  unfolding answer_with is_addressed
  receive_request address id type payload bus =
      if is_addressed address bus
      then answer_with id type payload (JsMap.get bus.request_events type) bus
      else bus

  unfoldable pub dispose : InstanceBus P → InstanceBus P
  dispose bus = record bus {
    is_subscribed = false;
    notification_events = [];
    request_events = [];
    pending_responses = [];
  }

  unfoldable pub step : Event P → InstanceBus P → InstanceBus P
  unfolding send_notification on_notification on_request send_request receive_response
      receive_request receive_notification release_notification release_request time_out dispose
  step (notification_sent type payload) = send_notification type payload
  step (notification_handled type handler) = on_notification type handler
  step (request_handled type handler) = on_request type handler
  step (request_sent id type payload) = send_request id type payload
  step (response_received address id response) = receive_response address id response
  step (request_received address id type payload) = receive_request address id type payload
  step (notification_received address type payload) = receive_notification address type payload
  step (notification_released type) = release_notification type
  step (request_released type) = release_request type
  step (timed_out id) = time_out id
  step disposed = dispose

  unfoldable pub run : List (Event P) → InstanceBus P → InstanceBus P
  unfolding step
  run [] bus = bus
  run (e ∷ es) bus = run es (step e bus)
