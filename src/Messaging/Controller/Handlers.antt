-- ===== src/Messaging/Controller/Handlers.antt =====
-- Which handlers are called for an instance.
use khulnasoft_lsp.Base.{
  ℕ, false, List, [], ◌∷◌, ◌++◌, Option, none, some, ◌≡◌, refl, ap, sym, ◌∙◌, number_key, add,
  contains, if_cases, ◌&&◌, ◌===◌,
}
use mathlib.Core.List.{append_assoc, append-nil}
use khulnasoft_lsp.Base.JsMap
use khulnasoft_lsp.Base.JsMap.{JsMap}
use khulnasoft_lsp.Messaging.Controller.{
  InstanceInfo, WebviewController, Event, connected, disconnected, system_notification,
  broadcast_called, handler_added, disposed, new, call, call_all, call_each, dispose, broadcast,
  disconnect, handle_connected, handle_disconnected, on_instance_connected, step, run,
}

-- Each instance had all these handlers called with its bus, once each and in their order.
abbrev pub AllCalled : List ℕ → JsMap ℕ InstanceInfo → Type 0
AllCalled handlers [] = Unit
AllCalled handlers ((instance_id, info) ∷ infos) =
    (info.called ≡ handlers) × AllCalled handlers infos

called-call_all :
    (gives : ℕ → ℕ → Option ℕ) (i : ℕ) (hs : List ℕ) (info : InstanceInfo)
    → (call_all gives i hs info).called ≡ info.called ++ hs
unfolding call_all call
called-call_all gives i [] info = sym (append-nil info.called)
called-call_all gives i (h ∷ hs) info =
    called-call_all gives i hs (call gives i h info) ∙ append_assoc info.called (h ∷ []) hs

AllCalled-call_each :
    (gives : ℕ → ℕ → Option ℕ) (h : ℕ) (hs : List ℕ) (infos : JsMap ℕ InstanceInfo)
    → AllCalled hs infos
    → AllCalled (hs ++ h ∷ []) (call_each gives h infos)
unfolding call_each call
AllCalled-call_each gives h hs [] a = tt
AllCalled-call_each gives h hs ((i, info) ∷ infos) (e, a) =
    (ap (λ (called : List ℕ). called ++ h ∷ []) e, AllCalled-call_each gives h hs infos a)

AllCalled-set :
    (hs : List ℕ) (i : ℕ) (info : InstanceInfo) (infos : JsMap ℕ InstanceInfo)
    → info.called ≡ hs
    → AllCalled hs infos
    → AllCalled hs (JsMap.set infos i info)
unfolding JsMap.set
AllCalled-set hs i info [] e a = (e, tt)
AllCalled-set hs i info ((j, other) ∷ infos) e (f, a) =
    if_cases (AllCalled hs) (j === i) _ _ (λ t. (e, a))
      (λ t. (f, AllCalled-set hs i info infos e a))

AllCalled-delete :
    (hs : List ℕ) (i : ℕ) (infos : JsMap ℕ InstanceInfo)
    → AllCalled hs infos
    → AllCalled hs (JsMap.delete infos i)
unfolding JsMap.delete
AllCalled-delete hs i [] a = tt
AllCalled-delete hs i ((j, other) ∷ infos) (f, a) =
    if_cases (AllCalled hs) (j === i) _ _ (λ t. AllCalled-delete hs i infos a)
      (λ t. (f, AllCalled-delete hs i infos a))

add_new : (hs : List ℕ) (h : ℕ) → contains hs h ≡ false → add hs h ≡ hs ++ h ∷ []
unfolding add
add_new hs h n = rw n refl

module _ {ℓ} {P : Type ℓ} (gives : ℕ → ℕ → Option ℕ) where
  -- No handler is added that was added before.
  abbrev pub AreNew : List (Event P) → List ℕ → Type 0
  AreNew [] hs = Unit
  AreNew (handler_added h ∷ es) hs = (contains hs h ≡ false) × AreNew es (hs ++ h ∷ [])
  AreNew (e ∷ es) hs = AreNew es hs

  -- What is kept before the rest of the events
  abbrev Ready : List (Event P) → WebviewController P → Type 0
  Ready es c = AreNew es c.handlers × AllCalled c.handlers c.instance_infos

  handle_connected-Ready :
      (es : List (Event P)) (i : ℕ) (c : WebviewController P)
      → Ready es c
      → Ready es (handle_connected gives i c)
  unfolding handle_connected
  handle_connected-Ready es i c (n, a) =
      if_cases (Ready es) (JsMap.has c.instance_infos i) _ _ (λ t. (n, a))
        (λ t. (
          n,
          AllCalled-set c.handlers i _ c.instance_infos (called-call_all gives i c.handlers _) a,
        ))

  disconnect-Ready :
      (es : List (Event P)) (i : ℕ) (o : Option InstanceInfo) (c : WebviewController P)
      → Ready es c
      → Ready es (disconnect i o c)
  disconnect-Ready es i none c r = r
  disconnect-Ready es i (some info) c (n, a) = (n, AllCalled-delete c.handlers i c.instance_infos a)

  step-Ready :
      (e : Event P) (es : List (Event P)) (c : WebviewController P)
      → Ready (e ∷ es) c
      → Ready es (step gives e c)
  unfolding step handle_disconnected broadcast on_instance_connected dispose
  step-Ready (connected w i) es c r =
      if_cases (Ready es) (c.is_subscribed && w === c.webview_id) _ _
        (λ t. handle_connected-Ready es i c r) (λ t. r)
  step-Ready (disconnected w i) es c r =
      if_cases (Ready es) (c.is_subscribed && w === c.webview_id) _ _
        (λ t. disconnect-Ready es i (JsMap.get c.instance_infos i) c r) (λ t. r)
  step-Ready (system_notification type payload) es c r =
      if_cases (Ready es) c.is_subscribed _ _ (λ t. r) (λ t. r)
  step-Ready (broadcast_called type payload) es c r = r
  step-Ready (handler_added h) es c ((fresh, n), a) =
      rw (add_new c.handlers h fresh) (n, AllCalled-call_each gives h c.handlers c.instance_infos a)
  step-Ready disposed es c (n, a) = (n, tt)

  run-Ready :
      (es : List (Event P)) (c : WebviewController P)
      → Ready es c
      → AllCalled (run gives es c).handlers (run gives es c).instance_infos
  unfolding run
  run-Ready [] c r = r.1
  run-Ready (e ∷ es) c r = run-Ready es (step gives e c) (step-Ready e es c r)

  -- Whatever happens to a new controller to which no handler is added twice: each instance that is connected has had every
  -- handler called with its bus, once and in the order in which they were added.
  pub run-new-AllCalled :
      (es : List (Event P)) (webview_id : ℕ)
      → AreNew es []
      → AllCalled
          (run gives es (new webview_id)).handlers
          (run gives es (new webview_id)).instance_infos
  unfolding new
  run-new-AllCalled es webview_id n = run-Ready es (new webview_id) (n, tt)
