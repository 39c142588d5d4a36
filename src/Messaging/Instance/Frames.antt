-- ===== src/Messaging/Instance/Frames.antt =====
-- A property of all buses that differ in what was told, or sent, holds when a handler was called.
use khulnasoft_lsp.Base.{List, String, Option, none, some, text_key, number_key}
use khulnasoft_lsp.Messaging.Registry.{Outcome}
use khulnasoft_lsp.Messaging.Instance.{
  Address, Response, publish_response, InstanceBus, Sent, publish, response_of, answer_with,
  tell_with,
}

module _ {ℓ κ} {P : Type ℓ} where
  pub told :
      (C : InstanceBus P → Type κ) (type : String) (payload : P) (o : Option (P → Outcome P))
      (bus : InstanceBus P)
      → ((told : List (String × Outcome P)) → C (record bus { notified = told }))
      → C (tell_with type payload o bus)
  unfolding tell_with
  told C type payload none bus h = h bus.notified
  told C type payload (some handler) bus h = h _

  responded :
      (C : InstanceBus P → Type κ) (id type : String) (o : Option (Response P))
      (bus : InstanceBus P)
      → ((sent : List (Address × Sent P)) → C (record bus { outbox = sent }))
      → C (publish_response id type o bus)
  unfolding publish_response publish
  responded C id type none bus h = h bus.outbox
  responded C id type (some response) bus h = h _

  pub replied :
      (C : InstanceBus P → Type κ) (id type : String) (payload : P) (o : Option (P → Outcome P))
      (bus : InstanceBus P)
      → ((sent : List (Address × Sent P)) → C (record bus { outbox = sent }))
      → C (answer_with id type payload o bus)
  unfolding answer_with
  replied C id type payload none bus h = h bus.outbox
  replied C id type payload (some handler) bus h =
      responded C id type (response_of (handler payload)) bus h
