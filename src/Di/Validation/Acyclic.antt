-- ===== src/Di/Validation/Acyclic.antt =====
-- What a validation that does not throw says of the classes.
use khulnasoft_lsp.Base.{
  ℕ, zero, suc, true, false, List, [], ◌∷◌, map, Option, none, some, ◌≡◌, refl, ◌===◌, contains,
  number_key, eqb_iff, add, Bool-cases, inl, inr, All, if◌then◌else◌,
}
use khulnasoft_lsp.Di.Classes.{
  DependencyId, symbol_of, ClassWithDependencies, Result, ok, throw, circular_dependency, ◌>>=◌,
}
use khulnasoft_lsp.Di.Validation.{
  Answer, class_of, any_circular, leave, enter, has_circular_dependency, check_all,
  no_circular_dependencies,
}

abbrev pub symbols : ClassWithDependencies → List ℕ
symbols c = map symbol_of c.dependencies

-- No chain of dependencies that starts at the symbol goes on for ever. As `find` does, the chains
-- go through the first class of each symbol.
pub data Grounded (cwds : List ClassWithDependencies) : ℕ → Type 0 where
  leaf : (s : ℕ) → class_of cwds s ≡ none → Grounded cwds s
  node :
      (s : ℕ) (c : ClassWithDependencies)
      → class_of cwds s ≡ some c
      → ((d : ℕ) → contains (symbols c) d ≡ true → Grounded cwds d)
      → Grounded cwds s

-- A chain of dependencies from one symbol to another, of at least one step.
pub data Chain (cwds : List ClassWithDependencies) : ℕ → ℕ → Type 0 where
  step :
      (s d : ℕ) (c : ClassWithDependencies)
      → class_of cwds s ≡ some c
      → contains (symbols c) d ≡ true
      → Chain cwds s d
  further :
      (s d t : ℕ) (c : ClassWithDependencies)
      → class_of cwds s ≡ some c
      → contains (symbols c) d ≡ true
      → Chain cwds d t
      → Chain cwds s t

pub not_circular-split :
    (m : Answer) (k : List ℕ → Answer) {st : List ℕ}
    → (m >>= λ answer. if answer.0 then ok answer else k answer.1) ≡ ok (false, st)
    → (st₁ : List ℕ) × (m ≡ ok (false, st₁)) × (k st₁ ≡ ok (false, st))
not_circular-split (ok (true, st₁)) k h = cc
not_circular-split (ok (false, st₁)) k h = (st₁, refl, h)
not_circular-split (throw e) k h = cc

pub checked-split :
    (m : Answer) (k : List ℕ → Result (Unit {0}))
    → (m >>= λ answer. if answer.0 then throw circular_dependency else k answer.1) ≡ ok tt
    → (st₁ : List ℕ) × (m ≡ ok (false, st₁)) × (k st₁ ≡ ok tt)
checked-split (ok (true, st₁)) k h = cc
checked-split (ok (false, st₁)) k h = (st₁, refl, h)
checked-split (throw e) k h = cc

pub leave-split :
    (m : Answer) (s : ℕ) {st : List ℕ}
    → (m >>= λ answer. ok (leave s answer)) ≡ ok (false, st)
    → (st₁ : List ℕ) × (m ≡ ok (false, st₁))
unfolding leave
leave-split (ok (true, st₁)) s h = cc
leave-split (ok (false, st₁)) s h = (st₁, refl)
leave-split (throw e) s h = cc

module _ (cwds : List ClassWithDependencies) where
  Chain-append : {s t u : ℕ} → Chain cwds s t → Chain cwds t u → Chain cwds s u
  Chain-append (step s d c e h) p = further s d _ c e h p
  Chain-append (further s d t c e h q) p = further s d _ c e h (Chain-append q p)

  Grounded-no_loop : (s t : ℕ) → Grounded cwds s → Chain cwds s t → s ≡ t → ⊥
  Grounded-no_loop s t (leaf _ e) (step _ d c f h) q = cc
  Grounded-no_loop s t (leaf _ e) (further _ d _ c f h p) q = cc
  Grounded-no_loop s t (node _ c e below) (step _ d c' f h) q =
      let same : c' ≡ c = cc in
      let h' : contains (symbols c) d ≡ true = rw same at h in
      let e' : class_of cwds d ≡ some c = rw q at e in
      Grounded-no_loop d d (below d h') (step d d c e' h') refl
  Grounded-no_loop s t (node _ c e below) (further _ d _ c' f h p) q =
      let same : c' ≡ c = cc in
      let h' : contains (symbols c) d ≡ true = rw same at h in
      let e' : class_of cwds t ≡ some c = rw q at e in
      Grounded-no_loop d d (below d h') (Chain-append p (step t d c e' h')) refl

  -- The calls for the dependencies and for one symbol are sound, given a call that is.
  abbrev Sound : (ℕ → List ℕ → Answer) → Type 0
  Sound call = (s : ℕ) (st st' : List ℕ) → call s st ≡ ok (false, st') → Grounded cwds s

  any_circular-Sound :
      (call : ℕ → List ℕ → Answer)
      → Sound call
      → (deps : List DependencyId) (st st' : List ℕ) → any_circular call deps st ≡ ok (false, st')
      → (d : ℕ) → contains (map symbol_of deps) d ≡ true
      → Grounded cwds d
  unfolding any_circular contains
  any_circular-Sound call sound [] st st' h d m = cc
  any_circular-Sound call sound (dep ∷ deps) st st' h d m =
      let (st₁, called, rest) = not_circular-split (call (symbol_of dep) st) _ h in
      elim (Bool-cases (symbol_of dep === d)) [
        | inl here ↦ rw (← (eqb_iff _ d).0 here) (sound (symbol_of dep) st st₁ called)
        | inr later ↦ any_circular-Sound call sound deps st₁ st' rest d (rw later at m)
      ]

  enter-Sound :
      (call : ℕ → List ℕ → Answer) (instances : List ℕ)
      → Sound call
      → (s : ℕ) (found : Option ClassWithDependencies) (st st' : List ℕ) → class_of cwds s ≡ found
      → enter call instances s found st ≡ ok (false, st')
      → Grounded cwds s
  unfolding enter
  enter-Sound call instances sound s none st st' e h = leaf s e
  enter-Sound call instances sound s (some cwd) st st' e h =
      let (st₁, looped) = leave-split (any_circular call cwd.dependencies st) s h in
      node s cwd e (any_circular-Sound call sound cwd.dependencies st st₁ looped)

  has_circular_dependency-Sound :
      (depth : ℕ) (instances : List ℕ) → Sound (has_circular_dependency depth cwds instances)
  unfolding has_circular_dependency
  has_circular_dependency-Sound zero instances s st st' h = cc
  has_circular_dependency-Sound (suc depth) instances s st st' h =
      elim (Bool-cases (contains st s)) [
        | inl old ↦ cc (rw old at h)
        | inr new ↦
            enter-Sound (has_circular_dependency depth cwds instances) instances
              (has_circular_dependency-Sound depth instances) s (class_of cwds s) (add st s) st'
              refl (rw new at h)
      ]

  check_all-Sound :
      (call : ℕ → List ℕ → Answer)
      → Sound call
      → (cs : List ClassWithDependencies) (st : List ℕ) → check_all call cs st ≡ ok tt
      → All (λ (c : ClassWithDependencies). Grounded cwds c.id) cs
  unfolding check_all
  check_all-Sound call sound [] st h = tt
  check_all-Sound call sound (c ∷ cs) st h =
      let (st₁, called, rest) = checked-split (call c.id st) _ h in
      (sound c.id st st₁ called, check_all-Sound call sound cs st₁ rest)

no_loops :
    (cwds cs : List ClassWithDependencies)
    → All (λ (c : ClassWithDependencies). Grounded cwds c.id) cs
    → All (λ (c : ClassWithDependencies). Grounded cwds c.id × (Chain cwds c.id c.id → ⊥)) cs
no_loops cwds [] h = tt
no_loops cwds (c ∷ cs) h =
    ((h.0, λ p. Grounded-no_loop cwds c.id c.id h.0 p refl), no_loops cwds cs h.1)

-- If the validation does not throw, no class has a chain of dependencies, through the first class
-- of each interface, that leads back to its own interface; and every such chain is finite.
pub no_circular_dependencies-Grounded :
    (depth : ℕ) (cwds : List ClassWithDependencies) (instances : List ℕ)
    → no_circular_dependencies depth cwds instances ≡ ok tt
    → All (λ (c : ClassWithDependencies). Grounded cwds c.id × (Chain cwds c.id c.id → ⊥)) cwds
unfolding no_circular_dependencies
no_circular_dependencies-Grounded depth cwds instances h = no_loops cwds cwds (
    check_all-Sound cwds (has_circular_dependency depth cwds instances)
      (has_circular_dependency-Sound cwds depth instances) cwds [] h)
