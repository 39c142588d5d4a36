-- ===== src/Messaging/Controller/Leaving.antt =====
-- What is left when a controller is disposed.
use khulnasoft_lsp.Base.{ℕ, false, List, [], ◌∷◌, Option, ◌≡◌, refl, ap, arith, number_key}
use khulnasoft_lsp.Messaging.Controller.{
  WebviewController, Event, connected, disconnected, system_notification, broadcast_called,
  handler_added, disposed, call_each, dispose, broadcast, on_instance_connected, step, run,
}

module _ {ℓ} {P : Type ℓ} (gives : ℕ → ℕ → Option ℕ) where
  -- No instance is connected any more, and none can be.
  record IsOver (callbacks : List ℕ) (c : WebviewController P) : Type ℓ where
    subscribed : c.is_subscribed ≡ false
    infos : c.instance_infos ≡ []
    same : c.disposed_callbacks ≡ callbacks

  step-IsOver :
      (callbacks : List ℕ) (e : Event P) (c : WebviewController P)
      → IsOver callbacks c
      → IsOver callbacks (step gives e c)
  unfolding step broadcast on_instance_connected dispose call_each
  step-IsOver callbacks (connected w i) c o = ground arith
  step-IsOver callbacks (disconnected w i) c o = ground arith
  step-IsOver callbacks (system_notification type payload) c o = ground arith
  step-IsOver callbacks (broadcast_called type payload) c o = record {
    subscribed = o.subscribed;
    infos = o.infos;
    same = o.same;
  }
  step-IsOver callbacks (handler_added handler) c o = record {
    subscribed = o.subscribed;
    infos = ap (call_each gives handler) o.infos;
    same = o.same;
  }
  step-IsOver callbacks disposed c o = record { subscribed = refl; infos = refl; same = o.same }

  run-IsOver :
      (callbacks : List ℕ) (es : List (Event P)) (c : WebviewController P)
      → IsOver callbacks c
      → IsOver callbacks (run gives es c)
  unfolding run
  run-IsOver callbacks [] c o = o
  run-IsOver callbacks (e ∷ es) c o =
      run-IsOver callbacks es (step gives e c) (step-IsOver callbacks e c o)

  -- What the handlers gave for the instances that are connected when a controller is disposed is not disposed of, then or ever
  -- after, whatever happens.
  pub run-dispose_callbacks :
      (es : List (Event P)) (c : WebviewController P)
      → (run gives es (dispose c)).disposed_callbacks ≡ c.disposed_callbacks
  unfolding dispose
  run-dispose_callbacks es c =
      (run-IsOver c.disposed_callbacks es (dispose c)
        (record { subscribed = refl; infos = refl; same = refl })).same
