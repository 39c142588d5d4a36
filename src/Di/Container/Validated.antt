-- ===== src/Di/Container/Validated.antt =====
-- "This should not have been shown, the static validation should have handled this case": after the
-- validation and the sort no class lacks an instance of an interface that it depends on.
use khulnasoft_lsp.Base.{
  ℕ, Bool, true, false, List, [], ◌∷◌, map, Option, none, some, ◌≡◌, ◌≢◌, refl, arith, contains,
  number_key, All, filter, Bool-cases, inl, inr,
}
use khulnasoft_lsp.Base.JsMap
use khulnasoft_lsp.Base.JsMap.{JsMap, get-set}
use khulnasoft_lsp.Di.Classes.{
  Metadata, ClassWithDependencies, Result, ok, throw, bind-ok, no_instance,
}
use khulnasoft_lsp.Di.Validation.{
  is_empty, has_unmet, dependencies_are_present, no_circular_dependencies, all_symbols,
}
use khulnasoft_lsp.Di.Order.Topological.{sort_dependencies-IsTopological}
use khulnasoft_lsp.Di.Order.Members.{sort_dependencies-All}
use khulnasoft_lsp.Di.Container.Errors.{prepare-IsOther}
use khulnasoft_lsp.Di.Container.{
  prepare, Argument, Instances, build, instantiate_sorted, instantiate_classes, instantiate,
  with_class, with_metadata,
}
use khulnasoft_lsp.Di.Container.Building.{
  IsDecorated, AllFilled, SeenFilled, keys-Filled, build-provided,
}

with_class-split :
    (cls : ℕ) (o : Option Metadata) (r : Option (List ClassWithDependencies))
    (cwds : List ClassWithDependencies)
    → with_class cls o r ≡ some cwds
    → (meta : Metadata) × (rest : List ClassWithDependencies) × (o ≡ some meta)
      × (r ≡ some rest)
      × (record { cls = cls; id = meta.id; dependencies = meta.dependencies } ∷ rest ≡ cwds)
unfolding with_class
with_class-split cls (some meta) (some rest) cwds e = (meta, rest, refl, refl, cc)
with_class-split cls (some meta) none cwds e = cc
with_class-split cls none r cwds e = cc

-- The classes that `with_metadata` gives are decorated.
with_metadata-IsDecorated :
    (metadata : JsMap ℕ Metadata) (classes : List ℕ) (cwds : List ClassWithDependencies)
    → with_metadata metadata classes ≡ some cwds
    → All (IsDecorated metadata) cwds
unfolding with_metadata
with_metadata-IsDecorated metadata [] cwds e = let empty : [] ≡ cwds = cc in rw (← empty) tt
with_metadata-IsDecorated metadata (c ∷ cs) cwds e =
    let (meta, rest, found, others, whole) =
      with_class-split c (JsMap.get metadata c) (with_metadata metadata cs) cwds e in
    rw (← whole) (found, with_metadata-IsDecorated metadata cs rest others)

-- No class has an unmet dependency if the filter finds none.
filter-none :
    (p : ClassWithDependencies → Bool) (cs : List ClassWithDependencies)
    → is_empty (filter p cs) ≡ true
    → All (λ (c : ClassWithDependencies). p c ≡ false) cs
unfolding filter
filter-none p [] e = tt
filter-none p (c ∷ cs) e = elim (Bool-cases (p c)) [
  | inl t ↦ cc (rw t at e)
  | inr f ↦ (f, filter-none p cs (rw f at e))
]

present-All :
    (cwds : List ClassWithDependencies) (symbols : List ℕ)
    → dependencies_are_present cwds symbols ≡ ok tt
    → All (λ (c : ClassWithDependencies). has_unmet (all_symbols cwds symbols) c ≡ false) cwds
unfolding dependencies_are_present
present-All cwds symbols e =
    filter-none (has_unmet (all_symbols cwds symbols)) cwds (ground (arith))

All-both :
    (P Q : ClassWithDependencies → Type 0) (cs : List ClassWithDependencies)
    → All P cs
    → All Q cs
    → All (λ (c : ClassWithDependencies). P c × Q c) cs
All-both P Q [] p q = tt
All-both P Q (c ∷ cs) p q = ((p.0, q.0), All-both P Q cs p.1 q.1)

SeenFilled-nil {ℓ} :
    {I : Type ℓ} (ks : List ClassWithDependencies) (m : Instances I) → SeenFilled ks [] m
unfolding contains
SeenFilled-nil [] m = tt
SeenFilled-nil (k ∷ ks) m = ((λ h. cc), SeenFilled-nil ks m)

-- If no interface has an empty list of instances, `instantiate` never throws that there is no instance
-- of an interface: the validation, or the sort, throws before.
pub instantiate-provided {ℓ} :
    {I : Type ℓ} (construct : ℕ → List (Argument I) → I) (depth : ℕ) (metadata : JsMap ℕ Metadata)
    (classes : List ℕ) (m : Instances I) (s : ℕ)
    → AllFilled m
    → (instantiate construct depth metadata classes m).1 ≢ throw (no_instance s)
unfolding instantiate instantiate_classes instantiate_sorted prepare
instantiate-provided {I = I} construct depth metadata classes m s filled h =
    go (with_metadata metadata classes) refl h
  where
    symbols : List ℕ
    symbols = map (λ (e : ℕ × List I). e.0) m

    sorted-provided :
        (cwds sorted : List ClassWithDependencies)
        → with_metadata metadata classes ≡ some cwds
        → prepare depth cwds symbols ≡ ok sorted
        → (build construct sorted m).1 ≢ throw (no_instance s)
    sorted-provided cwds sorted e p =
        let (u, present, p₁) = bind-ok (dependencies_are_present cwds symbols) _ p in
        let (v, acyclic, order) = bind-ok (no_circular_dependencies depth cwds symbols) _ p₁ in
        let decorated : All (IsDecorated metadata) cwds =
          with_metadata-IsDecorated metadata classes cwds e in
        let both =
          All-both (IsDecorated metadata) _ cwds decorated (present-All cwds symbols present) in
        build-provided cwds symbols metadata construct decorated sorted [] m s
          (sort_dependencies-IsTopological depth cwds sorted order).0
          (sort_dependencies-All _ cwds both depth sorted order)
          (record {
            classes_filled = SeenFilled-nil cwds m;
            keys_filled = λ t. keys-Filled m t filled;
          })

    prepared :
        (cwds : List ClassWithDependencies)
        → with_metadata metadata classes ≡ some cwds
        → (r : Result (List ClassWithDependencies)) → prepare depth cwds symbols ≡ r
        → (instantiate_sorted construct r m).1 ≢ throw (no_instance s)
    prepared cwds e (ok sorted) p q = sorted-provided cwds sorted e p q
    prepared cwds e (throw x) p q = prepare-IsOther depth cwds symbols s (cc)

    go :
        (o : Option (List ClassWithDependencies))
        → with_metadata metadata classes ≡ o
        → (instantiate_classes construct depth o m).1 ≢ throw (no_instance s)
    go none e q = cc
    go (some cwds) e q = prepared cwds e (prepare depth cwds symbols) refl q
