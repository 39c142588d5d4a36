-- ===== src/Di/Container/Overflow.antt =====
-- Two classes of one interface, the second of which depends on the collection of that interface. The
-- check for cycles looks at the first class of a symbol only (`cwds.find`).
use khulnasoft_lsp.Base.{
  ℕ, zero, suc, false, List, [], ◌∷◌, some, ◌≡◌, refl, arith, ◌===◌, contains, contains-add,
  number_key, eqb_iff, ===_refl, add, remove, Bool-cases, inl, inr, find, filter, any,
}
use khulnasoft_lsp.Base.JsMap
use khulnasoft_lsp.Base.JsMap.{JsMap, get-set}
use khulnasoft_lsp.Di.Classes.{
  collection_id, Metadata, ClassWithDependencies, Result, ok, throw, stack_overflow,
}
use khulnasoft_lsp.Di.Validation.{
  dependencies_are_present, no_circular_dependencies, has_circular_dependency, check_all,
  any_circular, enter, leave, class_of, has_unmet, is_unmet,
}
use khulnasoft_lsp.Di.Order.{
  Sorting, waiting, visit_dependencies, push, visit_classes, topological_sort, sort_all,
  sort_dependencies,
}
use khulnasoft_lsp.Di.Container.{
  Argument, Instances, prepare, instantiate, instantiate_classes, instantiate_sorted, with_metadata,
  with_class,
}

module _ (symbol first second : ℕ) (distinct : (first === second) ≡ false) where
  -- The class without dependencies.
  abbrev plain : ClassWithDependencies
  plain = record { cls = first; id = symbol; dependencies = [] }

  -- The class that takes all instances of its own interface.
  abbrev collector : ClassWithDependencies
  collector = record { cls = second; id = symbol; dependencies = collection_id symbol ∷ [] }

  abbrev pair : List ClassWithDependencies
  pair = plain ∷ collector ∷ []

  visit_collector :
      (sort : ℕ → Sorting → Result Sorting) (st : Sorting)
      → sort symbol st ≡ throw stack_overflow
      → visit_classes sort (collector ∷ []) st ≡ throw stack_overflow
  unfolding visit_classes visit_dependencies
  visit_collector sort st h = rw h refl

  topological_sort-overflow :
      (depth : ℕ) (st : Sorting)
      → contains st.processed second ≡ false
      → topological_sort depth pair symbol st ≡ throw stack_overflow
  unfolding topological_sort waiting filter visit_classes visit_dependencies push
  topological_sort-overflow zero st h = refl
  topological_sort-overflow (suc depth) st h =
      let again : contains (push plain st).processed second ≡ false =
        ground (arith, contains-add st.processed first second, eqb_iff first second) in
      elim (Bool-cases (contains st.processed first)) [
        | inl p ↦
            rw (p, h, ===_refl symbol)
              (visit_collector (topological_sort depth pair) st
                (topological_sort-overflow depth st h))
        | inr p ↦
            rw (p, h, ===_refl symbol)
              (visit_collector (topological_sort depth pair) (push plain st)
                (topological_sort-overflow depth (push plain st) again))
      ]

  remove_alone : (t : ℕ) → remove (t ∷ []) t ≡ []
  unfolding remove
  remove_alone t = rw (===_refl t) refl

  search_plain :
      (depth : ℕ) (symbols : List ℕ)
      → has_circular_dependency (suc depth) pair symbols symbol [] ≡ ok (false, [])
  unfolding has_circular_dependency contains class_of find enter any_circular leave add
  search_plain depth symbols = rw (===_refl symbol, remove_alone symbol) refl

  pair_acyclic :
      (depth : ℕ) (symbols : List ℕ) → no_circular_dependencies (suc depth) pair symbols ≡ ok tt
  unfolding no_circular_dependencies check_all
  pair_acyclic depth symbols =
      rw (search_plain depth symbols) (rw (search_plain depth symbols) refl)

  pair_overflow : (depth : ℕ) (symbols : List ℕ) → prepare depth pair symbols ≡ throw stack_overflow
  unfolding prepare sort_dependencies sort_all dependencies_are_present filter has_unmet any
      is_unmet contains no_circular_dependencies check_all has_circular_dependency
  pair_overflow zero symbols = refl
  pair_overflow (suc depth) symbols =
      let empty : contains [] second ≡ false = refl in
      rw
        (
          pair_acyclic depth symbols,
          topological_sort-overflow (suc depth) (record { sorted = []; processed = [] }) empty,
        )
        refl

-- If the second of two classes of one interface depends on the collection of that interface,
-- `instantiate` throws a stack overflow, however deep calls may nest, and adds nothing.
pub instantiate-overflow {ℓ} :
    {I : Type ℓ} (construct : ℕ → List (Argument I) → I) (metadata : JsMap ℕ Metadata)
    (symbol first second : ℕ)
    → (first === second) ≡ false
    → JsMap.get metadata first ≡ some (record { id = symbol; dependencies = [] })
    → JsMap.get metadata second
      ≡ some (record { id = symbol; dependencies = collection_id symbol ∷ [] })
    → (depth : ℕ) (m : Instances I)
    → instantiate construct depth metadata (first ∷ second ∷ []) m ≡ (m, throw stack_overflow)
unfolding instantiate instantiate_classes instantiate_sorted with_metadata with_class
instantiate-overflow construct metadata symbol first second d e₁ e₂ depth m =
    rw (e₁, e₂, pair_overflow symbol first second d depth _) refl
