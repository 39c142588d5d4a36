-- ===== src/Messaging/Mediator/Managing.antt =====
-- Which messages of plugins a transport is given.
use khulnasoft_lsp.Base.{
  ℕ, Bool, true, false, List, [], ◌∷◌, ◌++◌, ◌≡◌, refl, ap, ◌∙◌, number_key, contains, contains-add,
  contains-remove, add, remove, ◌===◌, if_both, sym, if◌then◌else◌, arith,
}
use mathlib.Core.List.{append-nil}
use khulnasoft_lsp.Messaging.Instance.{Address}
use khulnasoft_lsp.Messaging.Mediator.{
  Kind, Published, Mediator, Event, instance_created, instance_destroyed, message_received,
  plugin_message, disposed, new, publish, on_instance_created, on_instance_destroyed, is_managed,
  on_plugin_message, dispose, step, run,
}

module _ {ℓ} {P : Type ℓ} where
  -- The instance was created and not destroyed since, by the events before the mediator is disposed.
  abbrev pub is_live : ℕ → Bool → List (Event P) → Bool
  is_live i live [] = live
  is_live i live (instance_created a ∷ es) =
      is_live i (if a.webview_instance_id === i then true else live) es
  is_live i live (instance_destroyed a ∷ es) =
      is_live i (if a.webview_instance_id === i then false else live) es
  is_live i live (disposed ∷ es) = live
  is_live i live (_ ∷ es) = is_live i live es

  -- What a message of a plugin adds for the transport
  abbrev pub passed_on : Kind → Address → P → Bool → List (Kind × Address × P)
  passed_on kind address payload true = (kind, address, payload) ∷ []
  passed_on kind address payload false = []

  -- A mediator with this state
  abbrev state : Bool → List ℕ → List (Published P) → List (Kind × Address × P) → Mediator P
  state listening managed runtime transport = record {
    managed_instances = managed;
    is_listening = listening;
    to_runtime = runtime;
    to_transport = transport;
  }

  module _ (i : ℕ) where
    still_managed :
        (es : List (Event P)) (managed : List ℕ) (runtime : List (Published P))
        (transport : List (Kind × Address × P))
        → (run es (state false managed runtime transport)).managed_instances ≡ managed
    unfolding run step on_plugin_message dispose
    still_managed [] ms rt tp = refl
    still_managed (instance_created a ∷ es) ms rt tp = still_managed es ms rt tp
    still_managed (instance_destroyed a ∷ es) ms rt tp = still_managed es ms rt tp
    still_managed (message_received kind a x ∷ es) ms rt tp = still_managed es ms rt tp
    still_managed (plugin_message kind a x ∷ es) ms rt tp =
        if_both (λ (m : Mediator P). (run es m).managed_instances ≡ ms)
          (is_managed a (state false ms rt tp)) _ _ (still_managed es ms rt _)
          (still_managed es ms rt tp)
    still_managed (disposed ∷ es) ms rt tp = still_managed es ms rt tp

    managed_iff_live :
        (es : List (Event P)) (managed : List ℕ) (runtime : List (Published P))
        (transport : List (Kind × Address × P))
        → contains (run es (state true managed runtime transport)).managed_instances i
          ≡ is_live i (contains managed i) es
    unfolding run step on_plugin_message dispose on_instance_created on_instance_destroyed publish
    managed_iff_live [] ms rt tp = refl
    managed_iff_live (instance_created a ∷ es) ms rt tp =
        managed_iff_live es (add ms a.webview_instance_id) _ tp
        ∙ ap (λ (b : Bool). is_live i b es) (contains-add ms a.webview_instance_id i ∙ ground arith)
    managed_iff_live (instance_destroyed a ∷ es) ms rt tp =
        managed_iff_live es (remove ms a.webview_instance_id) _ tp
        ∙ ap (λ (b : Bool). is_live i b es) (contains-remove ms a.webview_instance_id i)
    managed_iff_live (message_received kind a x ∷ es) ms rt tp = managed_iff_live es ms _ tp
    managed_iff_live (plugin_message kind a x ∷ es) ms rt tp =
        if_both
          (λ (m : Mediator P).
            contains (run es m).managed_instances i ≡ is_live i (contains ms i) es)
          (is_managed a (state true ms rt tp)) _ _ (managed_iff_live es ms rt _)
          (managed_iff_live es ms rt tp)
    managed_iff_live (disposed ∷ es) ms rt tp =
        ap (λ (known : List ℕ). contains known i) (still_managed es ms rt tp)

  -- After whatever happened to a new mediator, a message of a plugin is given to the transport exactly if its instance was created
  -- and not destroyed since, in the time before the mediator was disposed; that it is disposed does not stop the messages.
  pub run-new-passed_on :
      (es : List (Event P)) (kind : Kind) (address : Address) (payload : P)
      → (run (plugin_message kind address payload ∷ []) (run es new)).to_transport
        ≡ (run es new).to_transport
          ++ passed_on kind address payload (is_live address.webview_instance_id false es)
  unfolding run step on_plugin_message
  run-new-passed_on es kind address payload =
      passed kind address payload (run es new) (is_live address.webview_instance_id false es)
        (unfold new contains in managed_iff_live address.webview_instance_id es [] [] [])
    where
      passed :
          (k : Kind) (a : Address) (x : P) (m : Mediator P) (b : Bool)
          → is_managed a m ≡ b
          → (if is_managed a m
              then record m { to_transport = m.to_transport ++ (k, a, x) ∷ [] }
              else m).to_transport
            ≡ m.to_transport ++ passed_on k a x b
      passed k a x m true e = rw e refl
      passed k a x m false e = rw e (sym (append-nil m.to_transport))
