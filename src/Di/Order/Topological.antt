-- ===== src/Di/Order/Topological.antt =====
-- The order is topological: a class stands after every class of every interface that it depends on.
use khulnasoft_lsp.Base.{
  ℕ, zero, suc, Bool, true, false, not, List, [], ◌∷◌, ◌++◌, ◌&&◌, ◌≡◌, refl, arith, ◌===◌,
  contains, add, filter, number_key, contains-add, eqb_iff, All, Bool-cases, inl, inr,
}
use khulnasoft_lsp.Di.Classes.{DependencyId, symbol_of, ClassWithDependencies, Result, ok, bind-ok}
use khulnasoft_lsp.Di.Order.{
  Sorting, waiting, visit_dependencies, push, visit_classes, topological_sort, sort_all,
  sort_dependencies,
}

-- Every class of the interface is among those seen.
abbrev pub Provided : List ClassWithDependencies → ℕ → List ℕ → Type 0
Provided classes s seen =
    All (λ (k : ClassWithDependencies). k.id ≡ s → contains seen k.cls ≡ true) classes

abbrev pub IsReady : List ClassWithDependencies → List ℕ → ClassWithDependencies → Type 0
IsReady classes seen c =
    All (λ (d : DependencyId). Provided classes (symbol_of d) seen) c.dependencies

-- Each class comes when the classes of all its dependencies have been seen.
abbrev pub IsTopological : List ClassWithDependencies → List ℕ → List ClassWithDependencies → Type 0
IsTopological classes seen [] = Unit
IsTopological classes seen (c ∷ cs) =
    IsReady classes seen c × IsTopological classes (add seen c.cls) cs

abbrev Grows : List ℕ → List ℕ → Type 0
Grows xs ys = (a : ℕ) → contains xs a ≡ true → contains ys a ≡ true

-- The classes seen after a list of them.
abbrev pub seen_after : List ℕ → List ClassWithDependencies → List ℕ
seen_after seen [] = seen
seen_after seen (c ∷ cs) = seen_after (add seen c.cls) cs

processed_of : (i s : ℕ) (b : Bool) → i ≡ s → (i === s && not b) ≡ false → b ≡ true
processed_of i s b e h = ground (arith, eqb_iff i s)

module _ (classes : List ClassWithDependencies) where
  Provided-mono :
      (s : ℕ) (xs ys : List ℕ) (ks : List ClassWithDependencies)
      → Grows xs ys
      → Provided ks s xs
      → Provided ks s ys
  Provided-mono s xs ys [] g p = tt
  Provided-mono s xs ys (k ∷ ks) g p = (λ e. g k.cls (p.0 e), Provided-mono s xs ys ks g p.1)

  IsReady-mono :
      (xs ys : List ℕ) (ds : List DependencyId)
      → Grows xs ys
      → All (λ (d : DependencyId). Provided classes (symbol_of d) xs) ds
      → All (λ (d : DependencyId). Provided classes (symbol_of d) ys) ds
  IsReady-mono xs ys [] g p = tt
  IsReady-mono xs ys (d ∷ ds) g p =
      (Provided-mono (symbol_of d) xs ys classes g p.0, IsReady-mono xs ys ds g p.1)

  seen_after-push :
      (seen : List ℕ) (cs : List ClassWithDependencies) (c : ClassWithDependencies)
      → seen_after seen (cs ++ c ∷ []) ≡ add (seen_after seen cs) c.cls
  seen_after-push seen [] c = refl
  seen_after-push seen (k ∷ cs) c = seen_after-push (add seen k.cls) cs c

  IsTopological-push :
      (seen : List ℕ) (cs : List ClassWithDependencies) (c : ClassWithDependencies)
      → IsTopological classes seen cs
      → IsReady classes (seen_after seen cs) c
      → IsTopological classes seen (cs ++ c ∷ [])
  IsTopological-push seen [] c t r = (r, tt)
  IsTopological-push seen (k ∷ cs) c t r = (t.0, IsTopological-push (add seen k.cls) cs c t.1 r)

  -- What holds between the calls: `processed` are the classes in `sorted`, which is in order.
  record IsSorting (st : Sorting) : Type 0 where
    tracked : st.processed ≡ seen_after [] st.sorted
    ordered : IsTopological classes [] st.sorted

  -- A call for a symbol keeps the order, forgets nothing, and provides the interface.
  record Visits (symbol : ℕ) (st st' : Sorting) : Type 0 where
    sorting : IsSorting st'
    grows : Grows st.processed st'.processed
    provided : Provided classes symbol st'.processed

  abbrev Sorts : (ℕ → Sorting → Result Sorting) → Type 0
  Sorts sort = (s : ℕ) (st st' : Sorting) → IsSorting st → sort s st ≡ ok st' → Visits s st st'

  push-IsSorting :
      (c : ClassWithDependencies) (st : Sorting)
      → IsSorting st
      → IsReady classes st.processed c
      → IsSorting (push c st)
  unfolding push
  push-IsSorting c st h r = record {
    tracked = rw (h.tracked, seen_after-push);
    ordered = IsTopological-push [] st.sorted c h.ordered (rw h.tracked at r);
  }

  push-Grows : (c : ClassWithDependencies) (st : Sorting) → Grows st.processed (push c st).processed
  unfolding push
  push-Grows c st a m = ground (arith, contains-add st.processed c.cls a)

  pushed : (c : ClassWithDependencies) (st : Sorting) → contains (push c st).processed c.cls ≡ true
  unfolding push
  pushed c st = ground (arith, contains-add st.processed c.cls c.cls, eqb_iff c.cls c.cls)

  visit_dependencies-Visits :
      (sort : ℕ → Sorting → Result Sorting)
      → Sorts sort
      → (ds : List DependencyId) (st st' : Sorting) → IsSorting st
      → visit_dependencies sort ds st ≡ ok st'
      → IsSorting st'
        × Grows st.processed st'.processed
        × All (λ (d : DependencyId). Provided classes (symbol_of d) st'.processed) ds
  unfolding visit_dependencies
  visit_dependencies-Visits sort sorts [] st st' h e =
      let same : st ≡ st' = cc in (rw (← same) h, λ a m. rw (← same) m, tt)
  visit_dependencies-Visits sort sorts (d ∷ ds) st st' h e =
      let (st₁, called, rest) = bind-ok (sort (symbol_of d) st) _ e in
      let v : Visits (symbol_of d) st st₁ = sorts (symbol_of d) st st₁ h called in
      let (h', g, ps) = visit_dependencies-Visits sort sorts ds st₁ st' v.sorting rest in
      (
        h',
        λ a m. g a (v.grows a m),
        (Provided-mono (symbol_of d) st₁.processed st'.processed classes g v.provided, ps),
      )

  visit_classes-Visits :
      (sort : ℕ → Sorting → Result Sorting)
      → Sorts sort
      → (cs : List ClassWithDependencies) (st st' : Sorting) → IsSorting st
      → visit_classes sort cs st ≡ ok st'
      → IsSorting st'
        × Grows st.processed st'.processed
        × All (λ (c : ClassWithDependencies). contains st'.processed c.cls ≡ true) cs
  unfolding visit_classes
  visit_classes-Visits sort sorts [] st st' h e =
      let same : st ≡ st' = cc in (rw (← same) h, λ a m. rw (← same) m, tt)
  visit_classes-Visits sort sorts (c ∷ cs) st st' h e =
      let (st₁, called, rest) = bind-ok (visit_dependencies sort c.dependencies st) _ e in
      let (h₁, g₁, ready) = visit_dependencies-Visits sort sorts c.dependencies st st₁ h called in
      let (h', g, ps) =
        visit_classes-Visits sort sorts cs (push c st₁) st' (push-IsSorting c st₁ h₁ ready) rest in
      (h', λ a m. g a (push-Grows c st₁ a (g₁ a m)), (g c.cls (pushed c st₁), ps))

  waiting-Provided :
      (s : ℕ) (st : Sorting) (seen : List ℕ) (ks : List ClassWithDependencies)
      → Grows st.processed seen
      → All (λ (c : ClassWithDependencies). contains seen c.cls ≡ true) (waiting ks s st)
      → Provided ks s seen
  unfolding waiting filter
  waiting-Provided s st seen [] g p = tt
  waiting-Provided s st seen (k ∷ ks) g p =
      let test = k.id === s && not (contains st.processed k.cls) in
      elim (Bool-cases test) [
        | inl t ↦
            let p' : (contains seen k.cls ≡ true)
                × All (λ (c : ClassWithDependencies). contains seen c.cls ≡ true)
                    (waiting ks s st) =
              rw t at p in
            (λ e. p'.0, waiting-Provided s st seen ks g p'.1)
        | inr f ↦ (
          λ e. g k.cls (processed_of k.id s (contains st.processed k.cls) e f),
          waiting-Provided s st seen ks g (rw f at p),
        )
      ]

  topological_sort-Visits : (depth : ℕ) → Sorts (topological_sort depth classes)
  unfolding topological_sort
  topological_sort-Visits zero s st st' h e = cc
  topological_sort-Visits (suc depth) s st st' h e =
      let (h', g, ps) =
        visit_classes-Visits (topological_sort depth classes) (topological_sort-Visits depth)
          (waiting classes s st) st st' h e in
      record {
        sorting = h';
        grows = g;
        provided = waiting-Provided s st st'.processed classes g ps;
      }

  sort_all-IsSorting :
      (sort : ℕ → Sorting → Result Sorting)
      → Sorts sort
      → (cs : List ClassWithDependencies) (st st' : Sorting) → IsSorting st
      → sort_all sort cs st ≡ ok st'
      → IsSorting st'
        × Grows st.processed st'.processed
        × All (λ (c : ClassWithDependencies). Provided classes c.id st'.processed) cs
  unfolding sort_all
  sort_all-IsSorting sort sorts [] st st' h e =
      let same : st ≡ st' = cc in (rw (← same) h, λ a m. rw (← same) m, tt)
  sort_all-IsSorting sort sorts (c ∷ cs) st st' h e =
      let (st₁, called, rest) = bind-ok (sort c.id st) _ e in
      let v : Visits c.id st st₁ = sorts c.id st st₁ h called in
      let (h', g, ps) = sort_all-IsSorting sort sorts cs st₁ st' v.sorting rest in
      (
        h',
        λ a m. g a (v.grows a m),
        (Provided-mono c.id st₁.processed st'.processed classes g v.provided, ps),
      )

abbrev start : Sorting
start = record { sorted = []; processed = [] }

-- If the sort ends, each class of the result stands after all classes of each interface that it
-- depends on, and every class that was given is in the result.
pub sort_dependencies-IsTopological :
    (depth : ℕ) (classes sorted : List ClassWithDependencies)
    → sort_dependencies depth classes ≡ ok sorted
    → IsTopological classes [] sorted
      × All (λ (c : ClassWithDependencies). Provided classes c.id (seen_after [] sorted)) classes
unfolding sort_dependencies
sort_dependencies-IsTopological depth classes sorted e =
    let (st', called, rest) =
      bind-ok (sort_all (topological_sort depth classes) classes start) _ e in
    let (h, g, ps) =
      sort_all-IsSorting classes (topological_sort depth classes)
        (topological_sort-Visits classes depth) classes start st'
        (record { tracked = refl; ordered = tt }) called in
    let same : st'.sorted ≡ sorted = cc in (rw same at h.ordered, rw (h.tracked, same) at ps)
