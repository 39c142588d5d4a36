-- ===== src/Di/Container/Building.antt =====
-- The instances that `build` adds, class by class: what it finds for the arguments of the next class.
use khulnasoft_lsp.Base.{
  ℕ, Bool, true, false, List, [], ◌∷◌, ◌++◌, map, Option, none, some, ◌≡◌, ◌≢◌, refl, arith, ◌===◌,
  contains, contains-append, contains-add, number_key, eqb_iff, add, All, any, Bool-cases, inl, inr,
}
use khulnasoft_lsp.Base.JsMap
use khulnasoft_lsp.Base.JsMap.{JsMap, get-set}
use khulnasoft_lsp.Di.Classes.{
  DependencyId, interface_id, collection_id, symbol_of, Metadata, ClassWithDependencies, Result, ok,
  throw, no_instance,
}
use khulnasoft_lsp.Di.Validation.{is_unmet, has_unmet, all_symbols}
use khulnasoft_lsp.Di.Order.Topological.{Provided, IsTopological}
use khulnasoft_lsp.Di.Container.{
  Argument, Instances, or_empty, add_instance, single, argument, arguments, construct_with, build,
}

-- The class stands in the metadata with its interface and dependencies.
abbrev pub IsDecorated : JsMap ℕ Metadata → ClassWithDependencies → Type 0
IsDecorated metadata c =
    JsMap.get metadata c.cls ≡ some (record { id = c.id; dependencies = c.dependencies })

module _ {ℓ} {I : Type ℓ} where
  abbrev is_filled : Option (List I) → Bool
  is_filled none = false
  is_filled (some []) = false
  is_filled (some (i ∷ is)) = true

  -- The container has an instance of the interface.
  abbrev pub Filled : Instances I → ℕ → Type 0
  Filled m s = is_filled (JsMap.get m s) ≡ true

  -- No interface has an empty list of instances.
  abbrev pub AllFilled : Instances I → Type 0
  AllFilled m = All (λ (e : ℕ × List I). is_filled (some e.1) ≡ true) m

  is_filled-append : (is : List I) (i : I) → is_filled (some (is ++ i ∷ [])) ≡ true
  is_filled-append [] i = refl
  is_filled-append (j ∷ is) i = refl

  add_instance-Filled :
      (m : Instances I) (s t : ℕ) (i : I) → Filled m t → Filled (add_instance s i m) t
  unfolding add_instance
  add_instance-Filled m s t i h = ground (
    arith,
    get-set m s t (or_empty (JsMap.get m s) ++ i ∷ []),
    is_filled-append (or_empty (JsMap.get m s)) i,
  )

  add_instance-Filled_self : (m : Instances I) (s : ℕ) (i : I) → Filled (add_instance s i m) s
  unfolding add_instance
  add_instance-Filled_self m s i =
      rw (JsMap.get-set_self m s (or_empty (JsMap.get m s) ++ i ∷ []))
        (is_filled-append (or_empty (JsMap.get m s)) i)

  add_instance-Filled_same :
      (m : Instances I) (s t : ℕ) (i : I) → s ≡ t → Filled (add_instance s i m) t
  add_instance-Filled_same m s t i e = rw (← e) (add_instance-Filled_self m s i)

  pub keys-Filled :
      (m : Instances I) (s : ℕ)
      → AllFilled m
      → contains (map (λ (e : ℕ × List I). e.0) m) s ≡ true
      → Filled m s
  unfolding contains JsMap.get
  keys-Filled [] s a h = cc
  keys-Filled ((t, is) ∷ m) s a h = ground (arith, keys-Filled m s a.1, a.0)

  -- Each class that was seen has an instance of its interface.
  abbrev pub SeenFilled : List ClassWithDependencies → List ℕ → Instances I → Type 0
  SeenFilled ks seen m =
      All (λ (k : ClassWithDependencies). contains seen k.cls ≡ true → Filled m k.id) ks

  classes-Filled :
      (ks : List ClassWithDependencies) (seen : List ℕ) (m : Instances I) (s : ℕ)
      → SeenFilled ks seen m
      → Provided ks s seen
      → contains (map (λ (k : ClassWithDependencies). k.id) ks) s ≡ true
      → Filled m s
  unfolding contains
  classes-Filled [] seen m s f p h = cc
  classes-Filled (k ∷ ks) seen m s f p h = elim (Bool-cases (k.id === s)) [
    | inl e ↦ let q : k.id ≡ s = (eqb_iff k.id s).0 e in rw q at (f.0 (p.0 q))
    | inr e ↦ classes-Filled ks seen m s f.1 p.1 (rw e at h)
  ]

  single-Filled :
      (o : Option (List I)) (t s : ℕ) → is_filled o ≡ true → single t o ≢ throw (no_instance s)
  unfolding single
  single-Filled none t s h e = cc
  single-Filled (some []) t s h e = cc
  single-Filled (some (i ∷ [])) t s h e = cc
  single-Filled (some (i ∷ j ∷ is)) t s h e = cc

  module _ (classes : List ClassWithDependencies) (keys : List ℕ) where
    -- Between two instantiations: what was seen, and what the container had, is there.
    pub record IsBuilt (seen : List ℕ) (m : Instances I) : Type 0 where
      pub classes_filled : SeenFilled classes seen m
      pub keys_filled : (s : ℕ) → contains keys s ≡ true → Filled m s

    available :
        (seen : List ℕ) (m : Instances I) (t : ℕ)
        → IsBuilt seen m
        → Provided classes t seen
        → contains (all_symbols classes keys) t ≡ true
        → Filled m t
    unfolding all_symbols
    available seen m t b p h =
        let ids = map (λ (k : ClassWithDependencies). k.id) classes in
        elim (Bool-cases (contains ids t)) [
          | inl e ↦ classes-Filled classes seen m t b.classes_filled p e
          | inr e ↦ b.keys_filled t (ground (arith, contains-append ids keys t))
        ]

    argument-Filled :
        (seen : List ℕ) (m : Instances I) (d : DependencyId) (s : ℕ)
        → IsBuilt seen m
        → Provided classes (symbol_of d) seen
        → is_unmet (all_symbols classes keys) d ≡ false
        → argument m d ≢ throw (no_instance s)
    unfolding argument is_unmet
    argument-Filled seen m (collection_id t) s b p u h = cc
    argument-Filled seen m (interface_id t) s b p u h =
        let f : Filled m t = available seen m t b p (ground arith) in
        ground (arith, single-Filled (JsMap.get m t) t s f)

    arguments-Filled :
        (seen : List ℕ) (m : Instances I) (ds : List DependencyId) (s : ℕ)
        → IsBuilt seen m
        → All (λ (d : DependencyId). Provided classes (symbol_of d) seen) ds
        → any (is_unmet (all_symbols classes keys)) ds ≡ false
        → arguments m ds ≢ throw (no_instance s)
    unfolding arguments any
    arguments-Filled seen m [] s b p u h = cc
    arguments-Filled seen m (d ∷ ds) s b p u h =
        ground (arith, argument-Filled seen m d s b p.0, arguments-Filled seen m ds s b p.1)

    module _ (metadata : JsMap ℕ Metadata) where
      add_instance-SeenFilled :
          (ks : List ClassWithDependencies) (c : ClassWithDependencies) (seen : List ℕ)
          (m : Instances I) (i : I)
          → All (IsDecorated metadata) ks
          → IsDecorated metadata c
          → SeenFilled ks seen m
          → SeenFilled ks (add seen c.cls) (add_instance c.id i m)
      add_instance-SeenFilled [] c seen m i d e f = tt
      add_instance-SeenFilled (k ∷ ks) c seen m i d e f =
          (filled, add_instance-SeenFilled ks c seen m i d.1 e f.1)
        where
          filled : contains (add seen c.cls) k.cls ≡ true → Filled (add_instance c.id i m) k.id
          filled h = elim (Bool-cases (c.cls === k.cls)) [
            | inl q ↦
                let same : c.cls ≡ k.cls = (eqb_iff c.cls k.cls).0 q in
                let ids : c.id ≡ k.id = cc (rw same at e, d.0) in
                add_instance-Filled_same m c.id k.id i ids
            | inr q ↦
                add_instance-Filled m c.id k.id i
                  (f.0 (ground (arith, contains-add seen c.cls k.cls)))
          ]

      add_instance-IsBuilt :
          (c : ClassWithDependencies) (seen : List ℕ) (m : Instances I) (i : I)
          → All (IsDecorated metadata) classes
          → IsDecorated metadata c
          → IsBuilt seen m
          → IsBuilt (add seen c.cls) (add_instance c.id i m)
      add_instance-IsBuilt c seen m i d e b = record {
        classes_filled = add_instance-SeenFilled classes c seen m i d e b.classes_filled;
        keys_filled = λ s h. add_instance-Filled m c.id s i (b.keys_filled s h);
      }

      module _ (construct : ℕ → List (Argument I) → I)
          (given : All (IsDecorated metadata) classes) where
        pub build-provided :
            (cs : List ClassWithDependencies) (seen : List ℕ) (m : Instances I) (s : ℕ)
            → IsTopological classes seen cs
            → All
                (λ (c : ClassWithDependencies).
                  IsDecorated metadata c × (has_unmet (all_symbols classes keys) c ≡ false))
                cs
            → IsBuilt seen m
            → (build construct cs m).1 ≢ throw (no_instance s)
        unfolding build construct_with any has_unmet
        build-provided [] seen m s t g b h = cc
        build-provided (c ∷ cs) seen m s t g b h = go (arguments m c.dependencies) refl (λ i.
            build-provided cs (add seen c.cls) (add_instance c.id i m) s t.1 g.1
              (add_instance-IsBuilt c seen m i given g.0.0 b))
          where
            go :
                (r : Result (List (Argument I)))
                → arguments m c.dependencies ≡ r
                → ((i : I) → (build construct cs (add_instance c.id i m)).1 ≢ throw (no_instance s))
                → ⊥
            go (ok args) e next = next (construct c.cls args) (rw e at h)
            go (throw x) e next =
                let same : throw x ≡ throw (no_instance s) = (rw e at h) in
                let thrown : arguments m c.dependencies ≡ throw (no_instance s) = cc in
                arguments-Filled seen m c.dependencies s b t.0 g.0.1 thrown
