-- ===== src/Di/Order/Total.antt =====
-- The sort ends when calls may nest deeply enough, if no two classes have one interface.
use khulnasoft_lsp.Base.{
  ℕ, zero, suc, ◌+◌, ◌≤◌, Bool, true, false, not, List, [], ◌∷◌, map, none, some, ◌≡◌, refl, arith,
  ◌===◌, contains, number_key, eqb_iff, Bool-cases, inl, inr, All, if◌then◌else◌, find, filter,
  ◌&&◌, ===_refl,
}
use khulnasoft_lsp.Di.Classes.{DependencyId, symbol_of, ClassWithDependencies, ok}
use khulnasoft_lsp.Di.Validation.{class_of, no_circular_dependencies}
use khulnasoft_lsp.Di.Validation.Acyclic.{Grounded, leaf, node, no_circular_dependencies-Grounded}
use khulnasoft_lsp.Di.Order.{
  Sorting, waiting, visit_dependencies, visit_classes, push, topological_sort, sort_all,
  sort_dependencies,
}
use khulnasoft_lsp.Di.Order.Topological.{
  IsTopological, Provided, seen_after, sort_dependencies-IsTopological,
}

-- No two classes have one interface.
abbrev pub HasDistinctIds : List ClassWithDependencies → Type 0
HasDistinctIds [] = Unit
HasDistinctIds (c ∷ cs) = (class_of cs c.id ≡ none) × HasDistinctIds cs

waiting-none :
    (ks : List ClassWithDependencies) (s : ℕ) (st : Sorting)
    → class_of ks s ≡ none
    → waiting ks s st ≡ []
unfolding class_of find waiting filter
waiting-none [] s st e = refl
waiting-none (k ∷ ks) s st e = ground (arith, waiting-none ks s st)

-- At most the one class of the symbol is waiting.
abbrev the_waiting : ClassWithDependencies → Bool → List ClassWithDependencies
the_waiting c true = []
the_waiting c false = c ∷ []

the_first :
    (c : ClassWithDependencies) (b : Bool)
    → (if true && not b then c ∷ [] else []) ≡ the_waiting c b
the_first c true = refl
the_first c false = refl

waiting-some :
    (ks : List ClassWithDependencies) (s : ℕ) (c : ClassWithDependencies) (st : Sorting)
    → HasDistinctIds ks
    → class_of ks s ≡ some c
    → waiting ks s st ≡ the_waiting c (contains st.processed c.cls)
unfolding class_of find waiting filter
waiting-some [] s c st d e = cc
waiting-some (k ∷ ks) s c st d e = elim (Bool-cases (k.id === s)) [
  | inl q ↦
      let same : k ≡ c = cc (rw q at e) in
      let ids : k.id ≡ s = (eqb_iff k.id s).0 q in
      let rest : waiting ks s st ≡ [] = waiting-none ks s st (rw ids at d.0) in
      rw (← same, q, rest) (the_first k (contains st.processed k.cls))
  | inr q ↦ rw q (waiting-some ks s c st d.1 (rw q at e))
]

module _ (classes : List ClassWithDependencies) where
  -- From a depth on, the search from the symbol ends.
  abbrev Works : ℕ → ℕ → Type 0
  Works n s =
      (m : ℕ)
      → n ≤ m
      → (st : Sorting) → (st' : Sorting) × (topological_sort m classes s st ≡ ok st')

  abbrev AllWork : ℕ → List DependencyId → Type 0
  AllWork n ds =
      (m : ℕ)
      → n ≤ m
      → (st : Sorting)
      → (st' : Sorting) × (visit_dependencies (topological_sort m classes) ds st ≡ ok st')

  dependencies_work :
      (ds : List DependencyId)
      → ((d : ℕ) → contains (map symbol_of ds) d ≡ true → (n : ℕ) × Works n d)
      → (n : ℕ) × AllWork n ds
  unfolding visit_dependencies contains
  dependencies_work [] each = (0, λ m h st. (st, refl))
  dependencies_work (d ∷ ds) each =
      let (n, works) = each (symbol_of d) (ground (arith, ===_refl (symbol_of d))) in
      let (k, rest) = dependencies_work ds (λ e h. each e (ground arith)) in
      (
        n + k,
        λ m h st.
            let (st₁, called) = works m (omega arith) st in
            let (st₂, visited) = rest m (omega arith) st₁ in (st₂, rw called visited),
      )

  visit_waiting :
      (n : ℕ) (c : ClassWithDependencies) (b : Bool) (st : Sorting)
      → AllWork n c.dependencies
      → (m : ℕ) → n ≤ m
      → (st' : Sorting) × (visit_classes (topological_sort m classes) (the_waiting c b) st ≡ ok st')
  unfolding visit_classes
  visit_waiting n c true st all m h = (st, refl)
  visit_waiting n c false st all m h =
      let (st₁, visited) = all m h st in (push c st₁, rw visited refl)

  Grounded-Works : HasDistinctIds classes → (s : ℕ) → Grounded classes s → (n : ℕ) × Works n s
  unfolding topological_sort visit_classes
  Grounded-Works distinct s (leaf _ e) = (1, go)
    where
      go : Works 1 s
      go zero h st = absurd (omega arith)
      go (suc m) h st = (st, rw (waiting-none classes s st e) refl)
  Grounded-Works distinct s (node _ c e below) =
      let (n, all) =
        dependencies_work c.dependencies (λ d h. Grounded-Works distinct d (below d h)) in
      (suc n, go n all)
    where
      go : (n : ℕ) → AllWork n c.dependencies → Works (suc n) s
      go n all zero h st = absurd (omega arith)
      go n all (suc m) h st =
          rw (waiting-some classes s c st distinct e)
            (visit_waiting n c (contains st.processed c.cls) st all m (omega arith))

  sort_all_works :
      HasDistinctIds classes
      → (cs : List ClassWithDependencies)
      → All (λ (c : ClassWithDependencies). Grounded classes c.id) cs
      → (n : ℕ) × ((m : ℕ)
          → n ≤ m
          → (st : Sorting)
          → (st' : Sorting) × (sort_all (topological_sort m classes) cs st ≡ ok st'))
  unfolding sort_all
  sort_all_works distinct [] g = (0, λ m h st. (st, refl))
  sort_all_works distinct (c ∷ cs) g =
      let (n, works) = Grounded-Works distinct c.id g.0 in
      let (k, rest) = sort_all_works distinct cs g.1 in
      (
        n + k,
        λ m h st.
            let (st₁, called) = works m (omega arith) st in
            let (st₂, sorted) = rest m (omega arith) st₁ in (st₂, rw called sorted),
      )

grounded :
    (P : ClassWithDependencies → Type 0) (classes cs : List ClassWithDependencies)
    → All (λ (c : ClassWithDependencies). Grounded classes c.id × P c) cs
    → All (λ (c : ClassWithDependencies). Grounded classes c.id) cs
grounded P classes [] g = tt
grounded P classes (c ∷ cs) g = (g.0.0, grounded P classes cs g.1)

-- If the validation does not throw and no two classes have one interface, then from a depth on the sort
-- gives an order in which each class stands after all classes of each interface that it depends on,
-- and which has every class that was given.
pub sort_dependencies_total :
    (depth : ℕ) (classes : List ClassWithDependencies) (instances : List ℕ)
    → HasDistinctIds classes
    → no_circular_dependencies depth classes instances ≡ ok tt
    → (n : ℕ) × ((m : ℕ)
        → n ≤ m
        → (sorted : List ClassWithDependencies) × (sort_dependencies m classes ≡ ok sorted)
          × IsTopological classes [] sorted
          × All
              (λ (c : ClassWithDependencies). Provided classes c.id (seen_after [] sorted))
              classes)
unfolding sort_dependencies
sort_dependencies_total depth classes instances distinct valid =
    let g = no_circular_dependencies-Grounded depth classes instances valid in
    let (n, works) = sort_all_works classes distinct classes (grounded _ classes classes g) in
    (n, λ m h. finish m (works m h (record { sorted = []; processed = [] })))
  where
    finish :
        (m : ℕ)
        → (st' : Sorting) × (sort_all
              (topological_sort m classes)
              classes
              (record { sorted = []; processed = [] })
            ≡ ok st')
        → (sorted : List ClassWithDependencies) × (sort_dependencies m classes ≡ ok sorted)
          × IsTopological classes [] sorted
          × All
              (λ (c : ClassWithDependencies). Provided classes c.id (seen_after [] sorted))
              classes
    finish m (st', e) =
        let order : sort_dependencies m classes ≡ ok st'.sorted = rw e refl in
        let (topological, whole) = sort_dependencies-IsTopological m classes st'.sorted order in
        (st'.sorted, order, topological, whole)
