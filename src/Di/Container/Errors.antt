-- ===== src/Di/Container/Errors.antt =====
-- The validators and the sort never throw that an interface has no instance.
use khulnasoft_lsp.Base.{
  ℕ, zero, suc, Bool, true, false, List, [], ◌∷◌, Option, none, some, ◌≢◌, arith, contains,
  number_key, if◌then◌else◌, add,
}
use khulnasoft_lsp.Di.Classes.{
  DependencyId, symbol_of, ClassWithDependencies, Result, ok, throw, no_instance, ◌>>=◌,
}
use khulnasoft_lsp.Di.Validation.{
  Answer, dependencies_are_present, no_circular_dependencies, has_circular_dependency, check_all,
  any_circular, enter, class_of,
}
use khulnasoft_lsp.Di.Order.{
  Sorting, waiting, visit_dependencies, push, visit_classes, topological_sort, sort_all,
  sort_dependencies,
}
use khulnasoft_lsp.Di.Container.{prepare}

-- A result that is no such error.
abbrev IsOther {ℓ} : {A : Type ℓ} → Result A → Type ℓ
IsOther r = (s : ℕ) → r ≢ throw (no_instance s)

bind-IsOther {ℓ κ} :
    {A : Type ℓ} {B : Type κ} (m : Result A) (f : A → Result B)
    → IsOther m
    → ((a : A) → IsOther (f a))
    → IsOther (m >>= f)
bind-IsOther (ok a) f h g = g a
bind-IsOther (throw e) f h g = λ s x. h s (cc)

if-IsOther {ℓ} :
    {A : Type ℓ} (b : Bool) (x y : Result A) → IsOther x → IsOther y → IsOther (if b then x else y)
if-IsOther true x y h g = h
if-IsOther false x y h g = g

-- A search from a symbol.
abbrev IsQuiet {ℓ κ} : {A : Type ℓ} {B : Type κ} → (ℕ → A → Result B) → Type (ℓ ⊔ κ)
IsQuiet {A = A} call = (t : ℕ) (st : A) → IsOther (call t st)

any_circular-IsOther :
    (call : ℕ → List ℕ → Answer) (ds : List DependencyId) (st : List ℕ)
    → IsQuiet call
    → IsOther (any_circular call ds st)
unfolding any_circular
any_circular-IsOther call [] st h = λ s x. cc
any_circular-IsOther call (d ∷ ds) st h =
    bind-IsOther (call (symbol_of d) st) _ (h (symbol_of d) st)
      λ a. if-IsOther a.0 (ok a) _ (λ s x. cc) (any_circular-IsOther call ds a.1 h)

enter-IsOther :
    (call : ℕ → List ℕ → Answer) (instances : List ℕ) (t : ℕ) (o : Option ClassWithDependencies)
    (st : List ℕ)
    → IsQuiet call
    → IsOther (enter call instances t o st)
unfolding enter
enter-IsOther call instances t none st h =
    if-IsOther (contains instances t) _ _ (λ s x. cc) (λ s x. cc)
enter-IsOther call instances t (some c) st h =
    bind-IsOther (any_circular call c.dependencies st) _
      (any_circular-IsOther call c.dependencies st h) λ a s x. cc

has_circular_dependency-IsQuiet :
    (depth : ℕ) (cwds : List ClassWithDependencies) (instances : List ℕ)
    → IsQuiet (has_circular_dependency depth cwds instances)
unfolding has_circular_dependency
has_circular_dependency-IsQuiet zero cwds instances t st = λ s x. cc
has_circular_dependency-IsQuiet (suc depth) cwds instances t st =
    if-IsOther (contains st t) _ _ (λ s x. cc)
      (enter-IsOther _ instances t (class_of cwds t) (add st t)
        (has_circular_dependency-IsQuiet depth cwds instances))

check_all-IsOther :
    (call : ℕ → List ℕ → Answer) (cs : List ClassWithDependencies) (st : List ℕ)
    → IsQuiet call
    → IsOther (check_all call cs st)
unfolding check_all
check_all-IsOther call [] st h = λ s x. cc
check_all-IsOther call (c ∷ cs) st h =
    bind-IsOther (call c.id st) _ (h c.id st)
      λ a. if-IsOther a.0 _ _ (λ s x. cc) (check_all-IsOther call cs a.1 h)

visit_dependencies-IsOther :
    (sort : ℕ → Sorting → Result Sorting) (ds : List DependencyId) (st : Sorting)
    → IsQuiet sort
    → IsOther (visit_dependencies sort ds st)
unfolding visit_dependencies
visit_dependencies-IsOther sort [] st h = λ s x. cc
visit_dependencies-IsOther sort (d ∷ ds) st h =
    bind-IsOther (sort (symbol_of d) st) _ (h (symbol_of d) st)
      λ st₁. visit_dependencies-IsOther sort ds st₁ h

visit_classes-IsOther :
    (sort : ℕ → Sorting → Result Sorting) (cs : List ClassWithDependencies) (st : Sorting)
    → IsQuiet sort
    → IsOther (visit_classes sort cs st)
unfolding visit_classes
visit_classes-IsOther sort [] st h = λ s x. cc
visit_classes-IsOther sort (c ∷ cs) st h =
    bind-IsOther (visit_dependencies sort c.dependencies st) _
      (visit_dependencies-IsOther sort c.dependencies st h)
      λ st₁. visit_classes-IsOther sort cs (push c st₁) h

topological_sort-IsQuiet :
    (depth : ℕ) (classes : List ClassWithDependencies) → IsQuiet (topological_sort depth classes)
unfolding topological_sort
topological_sort-IsQuiet zero classes t st = λ s x. cc
topological_sort-IsQuiet (suc depth) classes t st =
    visit_classes-IsOther (topological_sort depth classes) (waiting classes t st) st
      (topological_sort-IsQuiet depth classes)

sort_all-IsOther :
    (sort : ℕ → Sorting → Result Sorting) (cs : List ClassWithDependencies) (st : Sorting)
    → IsQuiet sort
    → IsOther (sort_all sort cs st)
unfolding sort_all
sort_all-IsOther sort [] st h = λ s x. cc
sort_all-IsOther sort (c ∷ cs) st h =
    bind-IsOther (sort c.id st) _ (h c.id st) λ st₁. sort_all-IsOther sort cs st₁ h

sort_dependencies-IsOther :
    (depth : ℕ) (cwds : List ClassWithDependencies) → IsOther (sort_dependencies depth cwds)
unfolding sort_dependencies
sort_dependencies-IsOther depth cwds =
    bind-IsOther (sort_all (topological_sort depth cwds) cwds _) _
      (sort_all-IsOther _ cwds _ (topological_sort-IsQuiet depth cwds)) λ st s x. cc

present-IsOther :
    (cwds : List ClassWithDependencies) (symbols : List ℕ)
    → IsOther (dependencies_are_present cwds symbols)
unfolding dependencies_are_present
present-IsOther cwds symbols s = ground (arith)

pub prepare-IsOther :
    (depth : ℕ) (cwds : List ClassWithDependencies) (symbols : List ℕ) (s : ℕ)
    → prepare depth cwds symbols ≢ throw (no_instance s)
unfolding prepare no_circular_dependencies
prepare-IsOther depth cwds symbols =
    bind-IsOther (dependencies_are_present cwds symbols) _ (present-IsOther cwds symbols) λ u.
      bind-IsOther (no_circular_dependencies depth cwds symbols) _
        (check_all-IsOther _ cwds [] (has_circular_dependency-IsQuiet depth cwds symbols))
        λ v. sort_dependencies-IsOther depth cwds
