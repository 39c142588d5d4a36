-- ===== src/Messaging/Bus/Publishing.antt =====
-- Which listeners a message reaches, after the operations of the bus.
use khulnasoft_lsp.Base.{
  ℕ, ◌<◌, Bool, List, [], ◌∷◌, ◌++◌, length, Option, none, some, Key, ◌===◌, ===_iff, ===_refl,
  number_key, if◌then◌else◌, ◌≡◌, refl, arith, All, eqb_iff, ◌≢◌, ap,
}
use khulnasoft_lsp.Base.JsMap
use khulnasoft_lsp.Base.JsMap.{JsMap, get-set, get-delete}
use khulnasoft_lsp.Messaging.Bus.{
  Subscription, MessageBus, or_new, subscribe, without, put_back, dispose_in, dispose, passes,
  called, publish, listener_count,
}

module _ {ℓ κ} {L : Type ℓ} {D : Type κ} where
  -- The ids of a set are smaller than the next one, and the set is not empty.
  abbrev pub IsSetBelow : ℕ → Option (List (Subscription L D)) → Type (ℓ ⊔ κ)
  IsSetBelow n none = Unit
  IsSetBelow n (some ss) = All (λ (s : Subscription L D). s.id < n) ss × (ss ≢ [])

  called-append :
      (d : D) (ss ts : List (Subscription L D)) → called d (ss ++ ts) ≡ called d ss ++ called d ts
  unfolding called
  called-append d [] ts = refl
  called-append d (s ∷ ss) ts = ground (arith, called-append d ss ts)

  without_fresh :
      (n : ℕ) (ss : List (Subscription L D)) (t : Subscription L D)
      → All (λ (s : Subscription L D). s.id < n) ss
      → t.id ≡ n
      → without n (ss ++ t ∷ []) ≡ ss
  unfolding without
  without_fresh n [] t h q = ground (arith, eqb_iff t.id n)
  without_fresh n (s ∷ ss) t h q = ground (arith, eqb_iff s.id n, without_fresh n ss t h.1 q)

  All-or_new :
      (n : ℕ) (o : Option (List (Subscription L D)))
      → IsSetBelow n o
      → All (λ (s : Subscription L D). s.id < n) (or_new o)
  All-or_new n none h = tt
  All-or_new n (some ss) h = h.0

module _ {ι ℓ κ} {K : Type ι} {L : Type ℓ} {D : Type κ} ⦃e : Key K⦄ where
  abbrev pub IsWellFormed : MessageBus K L D → Type (ι ⊔ ℓ ⊔ κ)
  IsWellFormed bus = (k : K) → IsSetBelow bus.next_id (JsMap.get bus.subscriptions k)

  get-put_back :
      (k j : K) (ss : List (Subscription L D)) (m : JsMap K (List (Subscription L D)))
      → or_new (JsMap.get (put_back k ss m) j) ≡ (if k === j then ss else or_new (JsMap.get m j))
  unfolding put_back
  get-put_back k j [] m = ground (arith, get-delete m k j)
  get-put_back k j (s ∷ ss) m = ground (arith, get-set m k j (s ∷ ss))

  -- After a subscription, the message reaches one listener more, the last, if it has the type of the
  -- subscription and passes its filter, and the same as before otherwise.
  pub publish-subscribe :
      (k j : K) (listener : L) (f : Option (D → Bool)) (d : D) (bus : MessageBus K L D)
      → publish j d (subscribe k listener f bus).1 ≡ (
          if k === j
          then publish j d bus ++ (if passes f d then listener ∷ [] else [])
          else publish j d bus)
  unfolding publish subscribe called
  publish-subscribe k j listener f d bus =
      let s : Subscription L D = record { id = bus.next_id; listener = listener; filter = f } in
      let ss = or_new (JsMap.get bus.subscriptions k) in
      ground (
        arith,
        ===_iff k j,
        get-set bus.subscriptions k j (ss ++ s ∷ []),
        called-append d ss (s ∷ []),
      )

  or_new-dispose_in :
      (k j : K) (id : ℕ) (m : JsMap K (List (Subscription L D)))
      (o : Option (List (Subscription L D)))
      → JsMap.get m k ≡ o
      → or_new (JsMap.get (dispose_in k id o m) j)
        ≡ (if k === j then without id (or_new o) else or_new (JsMap.get m j))
  unfolding dispose_in without
  or_new-dispose_in k j id m none q = ground (arith, ===_iff k j)
  or_new-dispose_in k j id m (some ss) q = get-put_back k j (without id ss) m

  restored :
      (k j : K) (listener : L) (f : Option (D → Bool)) (bus : MessageBus K L D)
      → IsWellFormed bus
      → let (id, subscribed) = subscribe k listener f bus in
        or_new (JsMap.get (dispose k id subscribed).subscriptions j)
        ≡ or_new (JsMap.get bus.subscriptions j)
  unfolding subscribe dispose
  restored k j listener f bus w =
      let n = bus.next_id in
      let m = bus.subscriptions in
      let s : Subscription L D = record { id = n; listener = listener; filter = f } in
      let m₁ = JsMap.set m k (or_new (JsMap.get m k) ++ s ∷ []) in
      ground (
        arith,
        ===_iff k j,
        ===_refl k,
        or_new-dispose_in k j n m₁ (JsMap.get m₁ k) refl,
        get-set m k j (or_new (JsMap.get m k) ++ s ∷ []),
        get-set m k k (or_new (JsMap.get m k) ++ s ∷ []),
        without_fresh n (or_new (JsMap.get m k)) s (All-or_new n (JsMap.get m k) (w k)) refl,
      )

  -- To dispose of a subscription right after it was made puts back what every message reaches, and
  -- how many listeners each type has, if the ids in use are smaller than the next one.
  pub dispose-subscribe :
      (k j : K) (listener : L) (f : Option (D → Bool)) (d : D) (bus : MessageBus K L D)
      → IsWellFormed bus
      → let (id, subscribed) = subscribe k listener f bus in
        (publish j d (dispose k id subscribed) ≡ publish j d bus)
        × (listener_count j (dispose k id subscribed) ≡ listener_count j bus)
  unfolding publish listener_count
  dispose-subscribe k j listener f d bus w =
      let same = restored k j listener f bus w in (ap (called d) same, ap length same)
