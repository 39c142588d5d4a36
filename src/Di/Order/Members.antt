-- ===== src/Di/Order/Members.antt =====
-- A predicate on the classes that are given holds of the classes in the order.
use khulnasoft_lsp.Base.{
  ℕ, zero, suc, not, List, [], ◌∷◌, ◌++◌, ◌&&◌, ◌≡◌, ◌===◌, contains, number_key, All, Bool-cases,
  inl, inr,
}
use khulnasoft_lsp.Di.Classes.{DependencyId, symbol_of, ClassWithDependencies, Result, ok, bind-ok}
use khulnasoft_lsp.Di.Order.{
  Sorting, waiting, visit_dependencies, push, visit_classes, topological_sort, sort_all,
  sort_dependencies,
}

module _ (P : ClassWithDependencies → Type 0) where
  All-push :
      (cs : List ClassWithDependencies) (c : ClassWithDependencies)
      → All P cs
      → P c
      → All P (cs ++ c ∷ [])
  All-push [] c h p = (p, tt)
  All-push (k ∷ cs) c h p = (h.0, All-push cs c h.1 p)

  All-waiting :
      (ks : List ClassWithDependencies) (s : ℕ) (st : Sorting) → All P ks → All P (waiting ks s st)
  unfolding waiting
  All-waiting [] s st h = tt
  All-waiting (k ∷ ks) s st h =
      elim (Bool-cases (k.id === s && not (contains st.processed k.cls))) [
        | inl t ↦ rw t (h.0, All-waiting ks s st h.1)
        | inr f ↦ rw f (All-waiting ks s st h.1)
      ]

  abbrev KeepsAll : (ℕ → Sorting → Result Sorting) → Type 0
  KeepsAll sort =
      (s : ℕ) (st st' : Sorting) → sort s st ≡ ok st' → All P st.sorted → All P st'.sorted

  visit_dependencies-All :
      (sort : ℕ → Sorting → Result Sorting)
      → KeepsAll sort
      → (ds : List DependencyId) (st st' : Sorting) → visit_dependencies sort ds st ≡ ok st'
      → All P st.sorted
      → All P st'.sorted
  unfolding visit_dependencies
  visit_dependencies-All sort keeps [] st st' e h = let same : st ≡ st' = cc in rw (← same) h
  visit_dependencies-All sort keeps (d ∷ ds) st st' e h =
      let (st₁, called, rest) = bind-ok (sort (symbol_of d) st) _ e in
      visit_dependencies-All sort keeps ds st₁ st' rest (keeps (symbol_of d) st st₁ called h)

  visit_classes-All :
      (sort : ℕ → Sorting → Result Sorting)
      → KeepsAll sort
      → (cs : List ClassWithDependencies) (st st' : Sorting) → All P cs
      → visit_classes sort cs st ≡ ok st'
      → All P st.sorted
      → All P st'.sorted
  unfolding visit_classes push
  visit_classes-All sort keeps [] st st' p e h = let same : st ≡ st' = cc in rw (← same) h
  visit_classes-All sort keeps (c ∷ cs) st st' p e h =
      let (st₁, called, rest) = bind-ok (visit_dependencies sort c.dependencies st) _ e in
      visit_classes-All sort keeps cs (push c st₁) st' p.1 rest (
        All-push st₁.sorted c (visit_dependencies-All sort keeps c.dependencies st st₁ called h)
          p.0)

  module _ (classes : List ClassWithDependencies) (given : All P classes) where
    topological_sort-All : (depth : ℕ) → KeepsAll (topological_sort depth classes)
    unfolding topological_sort
    topological_sort-All zero s st st' e h = cc
    topological_sort-All (suc depth) s st st' e h =
        visit_classes-All (topological_sort depth classes) (topological_sort-All depth)
          (waiting classes s st) st st' (All-waiting classes s st given) e h

    sort_all-All :
        (sort : ℕ → Sorting → Result Sorting)
        → KeepsAll sort
        → (cs : List ClassWithDependencies) (st st' : Sorting) → sort_all sort cs st ≡ ok st'
        → All P st.sorted
        → All P st'.sorted
    unfolding sort_all
    sort_all-All sort keeps [] st st' e h = let same : st ≡ st' = cc in rw (← same) h
    sort_all-All sort keeps (c ∷ cs) st st' e h =
        let (st₁, called, rest) = bind-ok (sort c.id st) _ e in
        sort_all-All sort keeps cs st₁ st' rest (keeps c.id st st₁ called h)

    pub sort_dependencies-All :
        (depth : ℕ) (sorted : List ClassWithDependencies)
        → sort_dependencies depth classes ≡ ok sorted
        → All P sorted
    unfolding sort_dependencies
    sort_dependencies-All depth sorted e =
        let (st, called, rest) =
          bind-ok (sort_all (topological_sort depth classes) classes _) _ e in
        let same : st.sorted ≡ sorted = cc in
        rw same at (
          sort_all-All (topological_sort depth classes) (topological_sort-All depth) classes _ st
            called tt)
