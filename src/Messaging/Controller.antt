-- ===== src/Messaging/Controller.antt =====
-- `packages/lib_webview/src/services/connection/webview_controller.ts`. A handler, and a disposable that it gives, is told from
-- others by a number; the bus that the factory makes for an instance is numbered too.
pub mod Handlers
pub mod Leaving
use khulnasoft_lsp.Base.{
  ℕ, suc, Bool, true, false, List, [], ◌∷◌, ◌++◌, String, Option, none, some, number_key, ◌===◌,
  ◌&&◌, add, if◌then◌else◌,
}
use khulnasoft_lsp.Base.JsMap
use khulnasoft_lsp.Base.JsMap.{JsMap}

-- `WebviewInstanceInfo`; `called` are the handlers that were called with its bus.
pub record InstanceInfo : Type 0 where
  pub message_bus : ℕ
  pub callback_disposables : List ℕ
  pub called : List ℕ

-- `is_subscribed`: the subscriptions to the runtime bus are there. What was disposed of, and what was sent to which bus, is
-- recorded.
pub record WebviewController {ℓ} (P : Type ℓ) : Type ℓ where
  pub webview_id : ℕ
  pub handlers : List ℕ
  pub instance_infos : JsMap ℕ InstanceInfo
  pub is_subscribed : Bool
  pub next_bus : ℕ
  pub disposed_callbacks : List ℕ
  pub disposed_buses : List ℕ
  pub sent : List (ℕ × String × P)

pub data Event {ℓ} (P : Type ℓ) : Type ℓ where
  connected disconnected : ℕ → ℕ → Event P
  system_notification : String → P → Event P
  broadcast_called : String → P → Event P
  handler_added : ℕ → Event P
  disposed : Event P

abbrev or_nothing : Option ℕ → List ℕ → List ℕ
or_nothing none disposables = disposables
or_nothing (some d) disposables = add disposables d

-- A handler is called for an instance, and may give a disposable.
unfoldable pub call : (ℕ → ℕ → Option ℕ) → ℕ → ℕ → InstanceInfo → InstanceInfo
unfolding add
call gives instance_id handler info = record info {
  callback_disposables = or_nothing (gives handler instance_id) info.callback_disposables;
  called = info.called ++ handler ∷ [];
}

unfoldable pub call_all : (ℕ → ℕ → Option ℕ) → ℕ → List ℕ → InstanceInfo → InstanceInfo
unfolding call
call_all gives instance_id [] info = info
call_all gives instance_id (h ∷ hs) info =
    call_all gives instance_id hs (call gives instance_id h info)

unfoldable pub call_each : (ℕ → ℕ → Option ℕ) → ℕ → JsMap ℕ InstanceInfo → JsMap ℕ InstanceInfo
unfolding call
call_each gives handler [] = []
call_each gives handler ((instance_id, info) ∷ infos) =
    (instance_id, call gives instance_id handler info) ∷ call_each gives handler infos

abbrev pub buses_of : JsMap ℕ InstanceInfo → List ℕ
buses_of [] = []
buses_of ((instance_id, info) ∷ infos) = info.message_bus ∷ buses_of infos

module _ {ℓ} {P : Type ℓ} where
  unfoldable pub new : ℕ → WebviewController P
  new webview_id = record {
    webview_id = webview_id;
    handlers = [];
    instance_infos = [];
    is_subscribed = true;
    next_bus = 0;
    disposed_callbacks = [];
    disposed_buses = [];
    sent = [];
  }

  unfoldable pub send_each : String → P → List ℕ → List (ℕ × String × P)
  send_each type payload [] = []
  send_each type payload (bus ∷ buses) = (bus, type, payload) ∷ send_each type payload buses

  unfoldable pub broadcast : String → P → WebviewController P → WebviewController P
  unfolding send_each
  broadcast type payload c = record c {
    sent = c.sent ++ send_each type payload (buses_of c.instance_infos);
  }

  unfoldable pub dispose : WebviewController P → WebviewController P
  dispose c = record c {
    is_subscribed = false;
    disposed_buses = c.disposed_buses ++ buses_of c.instance_infos;
    instance_infos = [];
  }

  -- `#handleDisconnected`, with what is known of the instance
  abbrev pub disconnect : ℕ → Option InstanceInfo → WebviewController P → WebviewController P
  disconnect instance_id none c = c
  disconnect instance_id (some info) c = record c {
    disposed_callbacks = c.disposed_callbacks ++ info.callback_disposables;
    disposed_buses = c.disposed_buses ++ info.message_bus ∷ [];
    instance_infos = JsMap.delete c.instance_infos instance_id;
  }

  unfoldable pub handle_disconnected : ℕ → WebviewController P → WebviewController P
  unfolding JsMap.get JsMap.delete
  handle_disconnected instance_id c =
      disconnect instance_id (JsMap.get c.instance_infos instance_id) c

  module _ (gives : ℕ → ℕ → Option ℕ) where
    unfoldable pub handle_connected : ℕ → WebviewController P → WebviewController P
    unfolding JsMap.has JsMap.set call_all
    handle_connected instance_id c =
        if JsMap.has c.instance_infos instance_id then c else record c {
          instance_infos = JsMap.set c.instance_infos instance_id (
              call_all gives instance_id c.handlers
                (record { message_bus = c.next_bus; callback_disposables = []; called = [] }));
          next_bus = suc c.next_bus;
        }

    unfoldable pub on_instance_connected : ℕ → WebviewController P → WebviewController P
    unfolding add call_each
    on_instance_connected handler c = record c {
      handlers = add c.handlers handler;
      instance_infos = call_each gives handler c.instance_infos;
    }

    -- An event of the runtime bus reaches the controller while it is subscribed, and if it passes the filter on the webview's id.
    unfoldable pub step : Event P → WebviewController P → WebviewController P
    unfolding handle_connected handle_disconnected broadcast on_instance_connected dispose
    step (connected webview_id instance_id) c =
        if c.is_subscribed && webview_id === c.webview_id then handle_connected instance_id c else c
    step (disconnected webview_id instance_id) c =
        if c.is_subscribed && webview_id === c.webview_id
        then handle_disconnected instance_id c
        else c
    step (system_notification type payload) c =
        if c.is_subscribed then broadcast type payload c else c
    step (broadcast_called type payload) c = broadcast type payload c
    step (handler_added handler) c = on_instance_connected handler c
    step disposed c = dispose c

    unfoldable pub run : List (Event P) → WebviewController P → WebviewController P
    unfolding step
    run [] c = c
    run (e ∷ es) c = run es (step e c)
