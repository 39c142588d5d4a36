-- ===== src/Di/Order.antt =====
-- `sortDependencies`: the order in which the classes are instantiated.
pub mod Topological
pub mod Total
pub mod Members
use khulnasoft_lsp.Base.{
  ℕ, zero, suc, not, List, [], ◌∷◌, ◌++◌, ◌&&◌, ◌===◌, contains, add, filter, number_key,
}
use khulnasoft_lsp.Di.Classes.{
  DependencyId, symbol_of, ClassWithDependencies, Result, ok, throw, stack_overflow, ◌>>=◌,
}

-- `sortedClasses` and `processedClasses`.
pub record Sorting : Type 0 where
  pub sorted : List ClassWithDependencies
  pub processed : List ℕ

-- The classes of a symbol that are not processed.
unfoldable pub waiting : List ClassWithDependencies → ℕ → Sorting → List ClassWithDependencies
unfolding filter
waiting classes symbol st =
    filter (λ (c : ClassWithDependencies). c.id === symbol && not (contains st.processed c.cls))
      classes

unfoldable pub visit_dependencies :
    (ℕ → Sorting → Result Sorting) → List DependencyId → Sorting → Result Sorting
visit_dependencies sort [] st = ok st
visit_dependencies sort (dep ∷ deps) st =
    sort (symbol_of dep) st >>= λ st₁. visit_dependencies sort deps st₁

-- `sortedClasses.push(cwd); processedClasses.add(cwd.cls)`
unfoldable pub push : ClassWithDependencies → Sorting → Sorting
push cwd st = record { sorted = st.sorted ++ cwd ∷ []; processed = add st.processed cwd.cls }

-- `for (const cwd of cwds)`
unfoldable pub visit_classes :
    (ℕ → Sorting → Result Sorting) → List ClassWithDependencies → Sorting → Result Sorting
unfolding visit_dependencies push
visit_classes sort [] st = ok st
visit_classes sort (cwd ∷ cwds) st =
    visit_dependencies sort cwd.dependencies st >>= λ st₁. visit_classes sort cwds (push cwd st₁)

-- `topologicalSort`, with at most `depth` nested calls.
unfoldable pub topological_sort : ℕ → List ClassWithDependencies → ℕ → Sorting → Result Sorting
unfolding visit_classes waiting
topological_sort zero classes symbol st = throw stack_overflow
topological_sort (suc depth) classes symbol st =
    visit_classes (topological_sort depth classes) (waiting classes symbol st) st

unfoldable pub sort_all :
    (ℕ → Sorting → Result Sorting) → List ClassWithDependencies → Sorting → Result Sorting
sort_all sort [] st = ok st
sort_all sort (cwd ∷ cwds) st = sort cwd.id st >>= λ st₁. sort_all sort cwds st₁

unfoldable pub sort_dependencies :
    ℕ → List ClassWithDependencies → Result (List ClassWithDependencies)
unfolding sort_all
sort_dependencies depth classes =
    sort_all (topological_sort depth classes) classes (record { sorted = []; processed = [] })
    >>= λ st. ok st.sorted
