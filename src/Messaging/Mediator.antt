-- ===== src/Messaging/Mediator.antt =====
-- `packages/lib_webview/src/services/transport/webview_runtime_transport_mediator.ts`: between one transport and the runtime bus.
pub mod Managing
use khulnasoft_lsp.Base.{
  ℕ, Bool, true, false, List, [], ◌∷◌, ◌++◌, number_key, contains, add, remove, if◌then◌else◌,
}
use khulnasoft_lsp.Messaging.Instance.{Address}

-- The kinds of messages between webviews and plugins
pub data Kind : Type 0 where
  notification request response : Kind

-- What is published on the runtime bus.
pub data Published {ℓ} (P : Type ℓ) : Type ℓ where
  webview_connect webview_disconnect : Address → Published P
  webview_message : Kind → Address → P → Published P

-- `is_listening`: the handlers of the transport are there. `to_transport` is what was published to the transport.
pub record Mediator {ℓ} (P : Type ℓ) : Type ℓ where
  pub managed_instances : List ℕ
  pub is_listening : Bool
  pub to_runtime : List (Published P)
  pub to_transport : List (Kind × Address × P)

pub data Event {ℓ} (P : Type ℓ) : Type ℓ where
  instance_created instance_destroyed : Address → Event P
  message_received : Kind → Address → P → Event P
  plugin_message : Kind → Address → P → Event P
  disposed : Event P

module _ {ℓ} {P : Type ℓ} where
  unfoldable pub new : Mediator P
  new = record { managed_instances = []; is_listening = true; to_runtime = []; to_transport = [] }

  unfoldable pub publish : Published P → Mediator P → Mediator P
  publish message m = record m { to_runtime = m.to_runtime ++ message ∷ [] }

  unfoldable pub on_instance_created : Address → Mediator P → Mediator P
  unfolding publish add
  on_instance_created address m =
      publish (webview_connect address)
        (record m { managed_instances = add m.managed_instances address.webview_instance_id })

  unfoldable pub on_instance_destroyed : Address → Mediator P → Mediator P
  unfolding publish remove
  on_instance_destroyed address m =
      publish (webview_disconnect address)
        (record m { managed_instances = remove m.managed_instances address.webview_instance_id })

  -- `createIsManagedFunc`, of a message with an address
  unfoldable pub is_managed : Address → Mediator P → Bool
  unfolding contains
  is_managed address m = contains m.managed_instances address.webview_instance_id

  unfoldable pub on_plugin_message : Kind → Address → P → Mediator P → Mediator P
  unfolding is_managed
  on_plugin_message kind address payload m =
      if is_managed address m
      then record m { to_transport = m.to_transport ++ (kind, address, payload) ∷ [] }
      else m

  -- The disposable holds the handlers of the transport only.
  unfoldable pub dispose : Mediator P → Mediator P
  dispose m = record m { is_listening = false }

  unfoldable pub step : Event P → Mediator P → Mediator P
  unfolding on_instance_created on_instance_destroyed publish on_plugin_message dispose
  step (instance_created address) m = if m.is_listening then on_instance_created address m else m
  step (instance_destroyed address) m =
      if m.is_listening then on_instance_destroyed address m else m
  step (message_received kind address payload) m =
      if m.is_listening then publish (webview_message kind address payload) m else m
  step (plugin_message kind address payload) m = on_plugin_message kind address payload m
  step disposed m = dispose m

  unfoldable pub run : List (Event P) → Mediator P → Mediator P
  unfolding step
  run [] m = m
  run (e ∷ es) m = run es (step e m)
