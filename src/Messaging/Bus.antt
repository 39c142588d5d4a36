-- ===== src/Messaging/Bus.antt =====
-- `packages/lib_webview/src/services/messaging/message_bus.ts`. A listener is a value of an abstract
-- type: `publish` gives the listeners that it calls, in order. What a listener does to the bus while
-- it is called is left out.
pub mod Publishing
pub mod Sets
use khulnasoft_lsp.Base.{
  ℕ, zero, suc, ◌+◌, Bool, true, false, List, [], ◌∷◌, ◌++◌, length, Option, none, some, Key, ◌===◌,
  number_key, if◌then◌else◌,
}
use khulnasoft_lsp.Base.JsMap
use khulnasoft_lsp.Base.JsMap.{JsMap}

-- `Subscription`: an object of its own, told from others by `id`.
pub record Subscription {ℓ κ} (L : Type ℓ) (D : Type κ) : Type (ℓ ⊔ κ) where
  pub id : ℕ
  pub listener : L
  pub filter : Option (D → Bool)

-- `next_id` is the identity of the next subscription.
pub record MessageBus {ι ℓ κ} (K : Type ι) (L : Type ℓ) (D : Type κ) : Type (ι ⊔ ℓ ⊔ κ) where
  pub next_id : ℕ
  pub subscriptions : JsMap K (List (Subscription L D))

abbrev pub passes {κ} : {D : Type κ} → Option (D → Bool) → D → Bool
passes none message = true
passes (some filter) message = filter message

module _ {ℓ κ} {L : Type ℓ} {D : Type κ} where
  -- `this.#subscriptions.get(messageType) ?? new Set()`
  abbrev pub or_new : Option (List (Subscription L D)) → List (Subscription L D)
  or_new none = []
  or_new (some subscriptions) = subscriptions

  -- `targetSubscriptions.delete(subscription)`
  unfoldable pub without : ℕ → List (Subscription L D) → List (Subscription L D)
  without id [] = []
  without id (s ∷ ss) = if s.id === id then without id ss else s ∷ without id ss

  unfoldable pub called : D → List (Subscription L D) → List L
  called message [] = []
  called message (s ∷ ss) =
      if passes s.filter message then s.listener ∷ called message ss else called message ss

module _ {ι ℓ κ} {K : Type ι} {L : Type ℓ} {D : Type κ} ⦃e : Key K⦄ where
  abbrev pub new : MessageBus K L D
  new = record { next_id = 0; subscriptions = [] }

  -- `subscribe`, with the identity of the subscription that it adds, which `dispose` takes.
  unfoldable pub subscribe : K → L → Option (D → Bool) → MessageBus K L D → ℕ × MessageBus K L D
  subscribe message_type listener filter bus = (
    bus.next_id,
    record {
      next_id = suc bus.next_id;
      subscriptions = JsMap.set bus.subscriptions message_type (
          or_new (JsMap.get bus.subscriptions message_type)
          ++ record { id = bus.next_id; listener = listener; filter = filter } ∷ []);
    },
  )

  -- The set that is left is taken out of the map when it is empty.
  unfoldable pub put_back :
      K
      → List (Subscription L D)
      → JsMap K (List (Subscription L D))
      → JsMap K (List (Subscription L D))
  put_back message_type [] m = JsMap.delete m message_type
  put_back message_type (s ∷ ss) m = JsMap.set m message_type (s ∷ ss)

  unfoldable pub dispose_in :
      K
      → ℕ
      → Option (List (Subscription L D))
      → JsMap K (List (Subscription L D))
      → JsMap K (List (Subscription L D))
  unfolding without put_back
  dispose_in message_type id none m = m
  dispose_in message_type id (some subscriptions) m =
      put_back message_type (without id subscriptions) m

  -- `dispose` of what `subscribe` returned.
  unfoldable pub dispose : K → ℕ → MessageBus K L D → MessageBus K L D
  unfolding dispose_in
  dispose message_type id bus = record bus {
    subscriptions =
        dispose_in message_type id (JsMap.get bus.subscriptions message_type) bus.subscriptions;
  }

  -- `publish`
  unfoldable pub publish : K → D → MessageBus K L D → List L
  unfolding called
  publish message_type message bus =
      called message (or_new (JsMap.get bus.subscriptions message_type))

  unfoldable pub has_listeners : K → MessageBus K L D → Bool
  has_listeners message_type bus = JsMap.has bus.subscriptions message_type

  unfoldable pub listener_count : K → MessageBus K L D → ℕ
  listener_count message_type bus = length (or_new (JsMap.get bus.subscriptions message_type))

  -- `clear`, which the bus's own `dispose` calls.
  unfoldable pub clear : MessageBus K L D → MessageBus K L D
  clear bus = record bus { subscriptions = [] }
