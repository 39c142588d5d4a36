-- ===== src/Messaging/Bus/Sets.antt =====
-- The sets of subscriptions in the map of the bus.
use khulnasoft_lsp.Base.{
  ℕ, suc, ◌<◌, ltb, Bool, List, [], ◌∷◌, ◌++◌, length, Option, none, some, Key, ◌===◌, number_key,
  is_some, sym, ◌≡◌, refl, arith, All, Bool-cases, inl, inr,
}
use khulnasoft_lsp.Base.JsMap
use khulnasoft_lsp.Base.JsMap.{JsMap, get-set, get-delete}
use khulnasoft_lsp.Messaging.Bus.{
  Subscription, MessageBus, new, or_new, subscribe, without, put_back, dispose_in, dispose,
  has_listeners, listener_count, clear,
}
use khulnasoft_lsp.Messaging.Bus.Publishing.{IsSetBelow, IsWellFormed}

-- A bus that its operations lead to, from the new one.
pub data IsReachable {ι ℓ κ} {K : Type ι} {L : Type ℓ} {D : Type κ} ⦃e : Key K⦄
    : MessageBus K L D → Type (ι ⊔ ℓ ⊔ κ) where
  start : IsReachable new
  subscribed :
      (bus : MessageBus K L D) (k : K) (listener : L) (f : Option (D → Bool))
      → IsReachable bus
      → IsReachable (subscribe k listener f bus).1
  disposed :
      (bus : MessageBus K L D) (k : K) (id : ℕ) → IsReachable bus → IsReachable (dispose k id bus)
  cleared : (bus : MessageBus K L D) → IsReachable bus → IsReachable (clear bus)

module _ {ℓ κ} {L : Type ℓ} {D : Type κ} where
  abbrev AllBelow : ℕ → List (Subscription L D) → Type 0
  AllBelow n = All (λ (s : Subscription L D). s.id < n)

  below-push :
      (n : ℕ) (ss : List (Subscription L D)) (t : Subscription L D)
      → AllBelow n ss
      → t.id ≡ n
      → AllBelow (suc n) (ss ++ t ∷ [])
  below-push n [] t h q = (omega (arith, q), tt)
  below-push n (s ∷ ss) t h q = (omega (arith, h.0), below-push n ss t h.1 q)

  IsSetBelow-push :
      (n : ℕ) (o : Option (List (Subscription L D))) (t : Subscription L D)
      → IsSetBelow n o
      → t.id ≡ n
      → IsSetBelow (suc n) (some (or_new o ++ t ∷ []))
  IsSetBelow-push n none t h q = ((omega (arith, q), tt), λ h. cc)
  IsSetBelow-push n (some []) t h q = ((omega (arith, q), tt), λ h. cc)
  IsSetBelow-push n (some (s ∷ ss)) t h q = (below-push n (s ∷ ss) t h.0 q, λ h. cc)

  IsSetBelow-suc :
      (n : ℕ) (o : Option (List (Subscription L D))) → IsSetBelow n o → IsSetBelow (suc n) o
  IsSetBelow-suc n none h = tt
  IsSetBelow-suc n (some ss) h = (below-suc ss h.0, h.1)
    where
      below-suc : (ss : List (Subscription L D)) → AllBelow n ss → AllBelow (suc n) ss
      below-suc [] h = tt
      below-suc (s ∷ ss) h = (omega (arith, h.0), below-suc ss h.1)

  without-below :
      (n id : ℕ) (ss : List (Subscription L D)) → AllBelow n ss → AllBelow n (without id ss)
  unfolding without
  without-below n id [] h = tt
  without-below n id (s ∷ ss) h = ground (arith, without-below n id ss h.1, h.0)

  some_listeners :
      (n : ℕ) (o : Option (List (Subscription L D)))
      → IsSetBelow n o
      → ltb 0 (length (or_new o)) ≡ is_some o
  some_listeners n none h = refl
  some_listeners n (some []) h = absurd (h.1 refl)
  some_listeners n (some (s ∷ ss)) h = ground arith

module _ {ι ℓ κ} {K : Type ι} {L : Type ℓ} {D : Type κ} ⦃e : Key K⦄ where
  put_back-IsSetBelow :
      (n : ℕ) (k j : K) (ss : List (Subscription L D)) (m : JsMap K (List (Subscription L D)))
      → AllBelow n ss
      → IsSetBelow n (JsMap.get m j)
      → IsSetBelow n (JsMap.get (put_back k ss m) j)
  unfolding put_back
  put_back-IsSetBelow n k j [] m h w = elim (Bool-cases (k === j)) [
    | inl q ↦ rw (get-delete m k j, q) tt
    | inr q ↦ rw (get-delete m k j, q) w
  ]
  put_back-IsSetBelow n k j (s ∷ ss) m h w = elim (Bool-cases (k === j)) [
    | inl q ↦ rw (get-set m k j (s ∷ ss), q) (h, λ h. cc)
    | inr q ↦ rw (get-set m k j (s ∷ ss), q) w
  ]

  dispose_in-IsSetBelow :
      (n id : ℕ) (k j : K) (o : Option (List (Subscription L D)))
      (m : JsMap K (List (Subscription L D)))
      → IsSetBelow n o
      → IsSetBelow n (JsMap.get m j)
      → IsSetBelow n (JsMap.get (dispose_in k id o m) j)
  unfolding dispose_in
  dispose_in-IsSetBelow n id k j none m h w = w
  dispose_in-IsSetBelow n id k j (some ss) m h w =
      put_back-IsSetBelow n k j (without id ss) m (without-below n id ss h.0) w

  IsReachable-IsWellFormed : (bus : MessageBus K L D) → IsReachable bus → IsWellFormed bus
  unfolding subscribe dispose clear JsMap.get
  IsReachable-IsWellFormed _ start j = tt
  IsReachable-IsWellFormed _ (subscribed bus k listener f r) j =
      let w = IsReachable-IsWellFormed bus r in
      let s : Subscription L D = record { id = bus.next_id; listener = listener; filter = f } in
      let ss = or_new (JsMap.get bus.subscriptions k) ++ s ∷ [] in
      elim (Bool-cases (k === j)) [
        | inl q ↦
            rw (get-set bus.subscriptions k j ss, q)
              (IsSetBelow-push bus.next_id (JsMap.get bus.subscriptions k) s (w k) refl)
        | inr q ↦
            rw (get-set bus.subscriptions k j ss, q)
              (IsSetBelow-suc bus.next_id (JsMap.get bus.subscriptions j) (w j))
      ]
  IsReachable-IsWellFormed _ (disposed bus k id r) j =
      let w = IsReachable-IsWellFormed bus r in
      dispose_in-IsSetBelow bus.next_id id k j (JsMap.get bus.subscriptions k) bus.subscriptions
        (w k) (w j)
  IsReachable-IsWellFormed _ (cleared bus r) j = tt

  -- On a bus that its operations lead to, a type has listeners exactly if their number is not zero, and
  -- the ids of the subscriptions are smaller than the next one.
  pub IsReachable-counts :
      (bus : MessageBus K L D) (j : K)
      → IsReachable bus
      → (has_listeners j bus ≡ ltb 0 (listener_count j bus))
        × IsSetBelow bus.next_id (JsMap.get bus.subscriptions j)
  unfolding has_listeners listener_count JsMap.has
  IsReachable-counts bus j r =
      let w = IsReachable-IsWellFormed bus r j in
      (sym (some_listeners bus.next_id (JsMap.get bus.subscriptions j) w), w)
