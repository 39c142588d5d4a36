-- ===== src/Messaging/Registry/Handling.antt =====
-- What a registry replies after its operations.
use khulnasoft_lsp.Base.{
  String, text_key, ◌===◌, ===_iff, if◌then◌else◌, ◌≡◌, arith, Bool-cases, inl, inr, ap, Key,
}
use khulnasoft_lsp.Base.JsMap.{JsMap, get-set, get-delete}
use khulnasoft_lsp.Messaging.Registry.{
  Outcome, handler_not_found, reply_of, handle_with, handle, register, unregister, register_hashed,
  unregister_hashed, handle_hashed,
}

module _ {ι} {K : Type ι} ⦃e : Key K⦄ (hash : K → String) where
  hash_same : ((k j : K) → hash k ≡ hash j → k ≡ j) → (k j : K) → hash k === hash j ≡ k === j
  hash_same same k j = elim (Bool-cases (k === j)) [
    | inl q ↦
        let equal : k ≡ j = (===_iff k j).0 q in
        ground (arith, ===_iff (hash k) (hash j), ap hash equal)
    | inr q ↦ ground (arith, ===_iff k j, ===_iff (hash k) (hash j), same k j)
  ]

module _ {ℓ κ ι} {A : Type ℓ} {R : Type κ} {K : Type ι} ⦃e : Key K⦄ (hash : K → String) where
  -- Of a registry by hash, where the keys with the same hash are the same: once a handler is registered
  -- for a key, that key gets its reply; after it is taken out, the key has no handler; and every other key is
  -- served as before.
  pub handle_hashed-register :
      (same : (k j : K) → hash k ≡ hash j → k ≡ j) (handlers : JsMap String (A → Outcome R))
      (k j : K) (handler : A → Outcome R) (argument : A)
      → (handle_hashed hash (register_hashed hash k handler handlers) j argument ≡ (
          if k === j
          then reply_of (hash j) (handler argument)
          else handle_hashed hash handlers j argument))
        × (handle_hashed hash (unregister_hashed hash k handlers) j argument ≡ (
            if k === j then handler_not_found (hash j) else handle_hashed hash handlers j argument))
  unfolding handle_hashed register_hashed unregister_hashed register unregister handle handle_with
  handle_hashed-register same handlers k j handler argument =
      let h = hash_same hash same k j in
      ground (
        arith,
        h,
        get-set handlers (hash k) (hash j) handler,
        get-delete handlers (hash k) (hash j),
      )
