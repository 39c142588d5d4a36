-- ===== src/Di/Validation.antt =====
-- `dependenciesArePresent` and `noCircularDependencies`.
pub mod Acyclic
pub mod Depth
use khulnasoft_lsp.Base.{
  ℕ, zero, suc, Bool, true, false, not, List, [], ◌∷◌, ◌++◌, map, Option, none, some, ◌===◌,
  contains, add, remove, any, filter, find, if◌then◌else◌, number_key,
}
use khulnasoft_lsp.Di.Classes.{
  DependencyId, interface_id, collection_id, symbol_of, ClassWithDependencies, DiError, Result, ok,
  throw, unmet_dependencies, circular_dependency, dependency_missing, stack_overflow, ◌>>=◌,
}

-- `[...cwds.map((cwd) => cwd.id.symbol), ...instances.keys()]`
unfoldable pub all_symbols : List ClassWithDependencies → List ℕ → List ℕ
all_symbols cwds instances = map (λ (c : ClassWithDependencies). c.id) cwds ++ instances

-- Collections are always considered present, as they can be empty.
unfoldable pub is_unmet : List ℕ → DependencyId → Bool
is_unmet symbols (collection_id s) = false
is_unmet symbols (interface_id s) = not (contains symbols s)

unfoldable pub has_unmet : List ℕ → ClassWithDependencies → Bool
unfolding any is_unmet
has_unmet symbols cwd = any (is_unmet symbols) cwd.dependencies

abbrev pub is_empty {ℓ} : {A : Type ℓ} → List A → Bool
is_empty [] = true
is_empty (x ∷ xs) = false

-- `instances` are the symbols that the container has instances for.
unfoldable pub dependencies_are_present : List ClassWithDependencies → List ℕ → Result (Unit {0})
unfolding has_unmet filter all_symbols
dependencies_are_present cwds instances =
    if is_empty (filter (has_unmet (all_symbols cwds instances)) cwds)
    then ok tt
    else throw unmet_dependencies

-- `cwds.find((c) => c.id.symbol === symbol)`
unfoldable pub class_of : List ClassWithDependencies → ℕ → Option ClassWithDependencies
unfolding find
class_of cwds symbol = find (λ (c : ClassWithDependencies). c.id === symbol) cwds

-- The answer of `hasCircularDependency`, with `inStack` as the call leaves it.
abbrev pub Answer : Type 0
Answer = Result (Bool × List ℕ)

-- `for (const dep of cwd.dependencies)`: the first dependency with a cycle ends the loop.
unfoldable pub any_circular : (ℕ → List ℕ → Answer) → List DependencyId → List ℕ → Answer
any_circular call [] in_stack = ok (false, in_stack)
any_circular call (dep ∷ deps) in_stack = call (symbol_of dep) in_stack >>= λ answer.
    if answer.0 then ok answer else any_circular call deps answer.1

-- After the loop over the dependencies.
unfoldable pub leave : ℕ → Bool × List ℕ → Bool × List ℕ
leave symbol (true, in_stack) = (true, in_stack)
leave symbol (false, in_stack) = (false, remove in_stack symbol)

unfoldable pub enter :
    (ℕ → List ℕ → Answer) → List ℕ → ℕ → Option ClassWithDependencies → List ℕ → Answer
unfolding any_circular leave
enter call instances symbol none in_stack =
    if contains instances symbol
    then ok (false, remove in_stack symbol)
    else throw (dependency_missing symbol)
enter call instances symbol (some cwd) in_stack =
    any_circular call cwd.dependencies in_stack >>= λ answer. ok (leave symbol answer)

-- `hasCircularDependency`, with at most `depth` nested calls.
unfoldable pub has_circular_dependency :
    ℕ → List ClassWithDependencies → List ℕ → ℕ → List ℕ → Answer
unfolding enter class_of
has_circular_dependency zero cwds instances symbol in_stack = throw stack_overflow
has_circular_dependency (suc depth) cwds instances symbol in_stack =
    if contains in_stack symbol
    then ok (true, in_stack)
    else enter (has_circular_dependency depth cwds instances) instances symbol
        (class_of cwds symbol) (add in_stack symbol)

-- `for (const cwd of cwds)`
unfoldable pub check_all :
    (ℕ → List ℕ → Answer) → List ClassWithDependencies → List ℕ → Result (Unit {0})
check_all call [] in_stack = ok tt
check_all call (cwd ∷ cwds) in_stack = call cwd.id in_stack >>= λ answer.
    if answer.0 then throw circular_dependency else check_all call cwds answer.1

unfoldable pub no_circular_dependencies :
    ℕ → List ClassWithDependencies → List ℕ → Result (Unit {0})
unfolding check_all
no_circular_dependencies depth cwds instances =
    check_all (has_circular_dependency depth cwds instances) cwds []
