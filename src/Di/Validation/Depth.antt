-- ===== src/Di/Validation/Depth.antt =====
-- How deep the search for cycles nests.
use khulnasoft_lsp.Base.{
  ℕ, zero, suc, ◌≤◌, ◌<◌, Bool, true, false, List, [], ◌∷◌, Option, none, some, ◌≡◌, ◌≢◌, ◌⊎◌, refl,
  ◌∙◌, arith, contains, contains-add, contains-remove, number_key, eqb_iff, add, remove, Bool-cases,
  inl, inr, if◌then◌else◌, length,
}
use khulnasoft_lsp.Di.Classes.{
  DependencyId, symbol_of, ClassWithDependencies, Result, ok, throw, stack_overflow, ◌>>=◌,
}
use khulnasoft_lsp.Di.Validation.{
  Answer, class_of, any_circular, leave, enter, has_circular_dependency, check_all,
  no_circular_dependencies,
}
use khulnasoft_lsp.Di.Validation.Acyclic.{not_circular-split, leave-split}

abbrev SameMembers : List ℕ → List ℕ → Type 0
SameMembers xs ys = (a : ℕ) → contains xs a ≡ contains ys a

-- A call that finds no cycle leaves `inStack` as it was.
abbrev Keeps : (ℕ → List ℕ → Answer) → Type 0
Keeps call = (s : ℕ) (st st' : List ℕ) → call s st ≡ ok (false, st') → SameMembers st' st

any_circular-Keeps :
    (call : ℕ → List ℕ → Answer)
    → Keeps call
    → (deps : List DependencyId) (st st' : List ℕ) → any_circular call deps st ≡ ok (false, st')
    → SameMembers st' st
unfolding any_circular
any_circular-Keeps call keeps [] st st' h a = cc
any_circular-Keeps call keeps (dep ∷ deps) st st' h a =
    let (st₁, called, rest) = not_circular-split (call (symbol_of dep) st) _ h in
    any_circular-Keeps call keeps deps st₁ st' rest a ∙ keeps (symbol_of dep) st st₁ called a

leave-stack :
    (m : Answer) (s : ℕ) (st₁ st' : List ℕ)
    → (m >>= λ answer. ok (leave s answer)) ≡ ok (false, st')
    → m ≡ ok (false, st₁)
    → st' ≡ remove st₁ s
unfolding leave
leave-stack m s st₁ st' h e = let g = rw e at h in cc

restored :
    (s : ℕ) (st st₁ : List ℕ)
    → contains st s ≡ false
    → SameMembers st₁ (add st s)
    → SameMembers (remove st₁ s) st
restored s st st₁ new same a =
    ground (arith, contains-remove st₁ s a, contains-add st s a, same a, eqb_iff s a)

enter-Keeps :
    (call : ℕ → List ℕ → Answer) (instances : List ℕ)
    → Keeps call
    → (s : ℕ) (found : Option ClassWithDependencies) (st st' : List ℕ) → contains st s ≡ false
    → enter call instances s found (add st s) ≡ ok (false, st')
    → SameMembers st' st
unfolding enter
enter-Keeps call instances keeps s none st st' new h = elim (Bool-cases (contains instances s)) [
  | inl i ↦
      let e : st' ≡ remove (add st s) s = cc (rw i at h) in
      rw e (restored s st (add st s) new (λ a. refl))
  | inr i ↦ cc (rw i at h)
]
enter-Keeps call instances keeps s (some cwd) st st' new h =
    let (st₁, looped) = leave-split (any_circular call cwd.dependencies (add st s)) s h in
    rw (leave-stack (any_circular call cwd.dependencies (add st s)) s st₁ st' h looped)
      (restored s st st₁ new (any_circular-Keeps call keeps cwd.dependencies (add st s) st₁ looped))

has_circular_dependency-Keeps :
    (depth : ℕ) (cwds : List ClassWithDependencies) (instances : List ℕ)
    → Keeps (has_circular_dependency depth cwds instances)
unfolding has_circular_dependency
has_circular_dependency-Keeps zero cwds instances s st st' h = cc
has_circular_dependency-Keeps (suc depth) cwds instances s st st' h =
    elim (Bool-cases (contains st s)) [
      | inl old ↦ cc (rw old at h)
      | inr new ↦
          enter-Keeps (has_circular_dependency depth cwds instances) instances
            (has_circular_dependency-Keeps depth cwds instances) s (class_of cwds s) st st' new
            (rw new at h)
    ]

-- The classes whose interface is not in `inStack`.
abbrev unvisited : List ℕ → List ClassWithDependencies → ℕ
unvisited st [] = 0
unvisited st (c ∷ cs) = let rest = unvisited st cs in if contains st c.id then rest else suc rest

unvisited_same :
    (xs ys : List ℕ) (cs : List ClassWithDependencies)
    → SameMembers xs ys
    → unvisited xs cs ≡ unvisited ys cs
unvisited_same xs ys [] same = refl
unvisited_same xs ys (c ∷ cs) same = ground (arith, same c.id, unvisited_same xs ys cs same)

unvisited-add-le :
    (st : List ℕ) (s : ℕ) (cs : List ClassWithDependencies)
    → unvisited (add st s) cs ≤ unvisited st cs
unvisited-add-le st s [] = omega arith
unvisited-add-le st s (c ∷ cs) = ground (arith, contains-add st s c.id, unvisited-add-le st s cs)

unvisited-add-lt :
    (st : List ℕ) (s : ℕ) (c : ClassWithDependencies) (cs : List ClassWithDependencies)
    → contains st s ≡ false
    → class_of cs s ≡ some c
    → unvisited (add st s) cs < unvisited st cs
unfolding class_of
unvisited-add-lt st s c [] new h = cc
unvisited-add-lt st s c (c' ∷ cs) new h = ground (
  arith,
  contains-add st s c'.id,
  unvisited-add-lt st s c cs new,
  unvisited-add-le st s cs,
  eqb_iff s c'.id,
  eqb_iff c'.id s,
)

unvisited-le : (st : List ℕ) (cs : List ClassWithDependencies) → unvisited st cs ≤ length cs
unvisited-le st [] = omega arith
unvisited-le st (c ∷ cs) = ground (arith, unvisited-le st cs)

overflow-split {ℓ} :
    {B : Type ℓ} (m : Answer) (k : Bool × List ℕ → Result B)
    → (m >>= k) ≡ throw stack_overflow
    → (m ≡ throw stack_overflow) ⊎ ((a : Bool × List ℕ) × (m ≡ ok a) × (k a ≡ throw stack_overflow))
overflow-split (ok a) k h = inr (a, refl, h)
overflow-split (throw e) k h = inl (cc)

module _ (cwds : List ClassWithDependencies) where
  -- Calls with room for `n` more symbols in the stack do not overflow.
  abbrev Fits : ℕ → (ℕ → List ℕ → Answer) → Type 0
  Fits n call = (s : ℕ) (st : List ℕ) → unvisited st cwds < n → call s st ≢ throw stack_overflow

  room_after :
      (n s : ℕ) (call : ℕ → List ℕ → Answer) (st st₁ : List ℕ)
      → Keeps call
      → call s st ≡ ok (false, st₁)
      → unvisited st cwds < n
      → unvisited st₁ cwds < n
  room_after n s call st st₁ keeps e room = rw (unvisited_same st₁ st cwds (keeps s st st₁ e)) room

  any_circular-Fits :
      (n : ℕ) (call : ℕ → List ℕ → Answer)
      → Fits n call
      → Keeps call
      → (deps : List DependencyId) (st : List ℕ) → unvisited st cwds < n
      → any_circular call deps st ≢ throw stack_overflow
  unfolding any_circular
  any_circular-Fits n call fits keeps [] st room h = cc
  any_circular-Fits n call fits keeps (dep ∷ deps) st room h =
      elim (overflow-split (call (symbol_of dep) st) _ h) [
        | inl e ↦ fits (symbol_of dep) st room e
        | inr ((true, st₁), e, k) ↦ cc
        | inr ((false, st₁), e, k) ↦
            any_circular-Fits n call fits keeps deps st₁
              (room_after n (symbol_of dep) call st st₁ keeps e room) k
      ]

  enter-Fits :
      (n : ℕ) (call : ℕ → List ℕ → Answer) (instances : List ℕ)
      → Fits n call
      → Keeps call
      → (s : ℕ) (found : Option ClassWithDependencies) (st : List ℕ)
      → ((c : ClassWithDependencies) → found ≡ some c → unvisited st cwds < n)
      → enter call instances s found st ≢ throw stack_overflow
  unfolding enter
  enter-Fits n call instances fits keeps s none st room h = ground arith
  enter-Fits n call instances fits keeps s (some cwd) st room h =
      elim (overflow-split (any_circular call cwd.dependencies st) _ h) [
        | inl e ↦ any_circular-Fits n call fits keeps cwd.dependencies st (room cwd refl) e
        | inr (a, e, k) ↦ cc
      ]

  has_circular_dependency-Fits :
      (depth : ℕ) (instances : List ℕ) → Fits depth (has_circular_dependency depth cwds instances)
  unfolding has_circular_dependency
  has_circular_dependency-Fits zero instances s st room h = absurd (omega arith)
  has_circular_dependency-Fits (suc depth) instances s st room h =
      elim (Bool-cases (contains st s)) [
        | inl old ↦ cc (rw old at h)
        | inr new ↦
            enter-Fits depth (has_circular_dependency depth cwds instances) instances
              (has_circular_dependency-Fits depth instances)
              (has_circular_dependency-Keeps depth cwds instances) s (class_of cwds s) (add st s)
              (λ c found. omega (arith, unvisited-add-lt st s c cwds new found)) (rw new at h)
      ]

  check_all-Fits :
      (n : ℕ) (call : ℕ → List ℕ → Answer)
      → Fits n call
      → Keeps call
      → (cs : List ClassWithDependencies) (st : List ℕ) → unvisited st cwds < n
      → check_all call cs st ≢ throw stack_overflow
  unfolding check_all
  check_all-Fits n call fits keeps [] st room h = cc
  check_all-Fits n call fits keeps (c ∷ cs) st room h = elim (overflow-split (call c.id st) _ h) [
    | inl e ↦ fits c.id st room e
    | inr ((true, st₁), e, k) ↦ cc
    | inr ((false, st₁), e, k) ↦
        check_all-Fits n call fits keeps cs st₁ (room_after n c.id call st st₁ keeps e room) k
  ]

-- The search for cycles ends: it nests at most one call more than there are classes, whatever
-- their dependencies are.
pub no_circular_dependencies-depth :
    (cwds : List ClassWithDependencies) (instances : List ℕ)
    → no_circular_dependencies (suc (length cwds)) cwds instances ≢ throw stack_overflow
unfolding no_circular_dependencies
no_circular_dependencies-depth cwds instances =
    let n = suc (length cwds) in
    check_all-Fits cwds n (has_circular_dependency n cwds instances)
      (has_circular_dependency-Fits cwds n instances)
      (has_circular_dependency-Keeps n cwds instances) cwds [] (omega (arith, unvisited-le [] cwds))
