-- ===== src/Di/Classes.antt =====
-- The data of the container: interface ids, dependencies, and the errors that are thrown. A symbol
-- and a class are given by numbers, since both are compared by identity alone. The texts of the
-- errors are left out.
use khulnasoft_lsp.Base.{ℕ, List, ◌≡◌, refl}

-- `DependencyId`: an `InterfaceId` or a `CollectionId`, by the symbol of its interface.
pub data DependencyId : Type 0 where
  interface_id : ℕ → DependencyId
  collection_id : ℕ → DependencyId

-- `dep.symbol`, or `dep.baseId.symbol` of a collection.
abbrev pub symbol_of : DependencyId → ℕ
symbol_of (interface_id s) = s
symbol_of (collection_id s) = s

pub record Metadata : Type 0 where
  pub id : ℕ
  pub dependencies : List DependencyId

pub record ClassWithDependencies : Type 0 where
  pub cls : ℕ
  pub id : ℕ
  pub dependencies : List DependencyId

-- What the container throws. `stack_overflow` is JavaScript's own error, when calls nest deeper than
-- the `depth` that the definitions take.
pub data DiError : Type 0 where
  undecorated unmet_dependencies circular_dependency : DiError
  dependency_missing : ℕ → DiError
  not_branded : DiError
  no_instance multiple_instances : ℕ → DiError
  stack_overflow : DiError

pub data Result {ℓ} (A : Type ℓ) : Type ℓ where
  throw : DiError → Result A
  ok : A → Result A

-- A call, and what is done with the value that it returns.
infixl 5 ◌>>=◌
abbrev pub ◌>>=◌ {ℓ κ} : {A : Type ℓ} {B : Type κ} → Result A → (A → Result B) → Result B
throw error >>= next = throw error
ok value >>= next = next value

pub bind-ok {ℓ κ} :
    {A : Type ℓ} {B : Type κ} (call : Result A) (next : A → Result B) {answer : B}
    → (call >>= next) ≡ ok answer
    → (value : A) × (call ≡ ok value) × (next value ≡ ok answer)
bind-ok (throw error) next returned = cc
bind-ok (ok value) next returned = (value, refl, returned)
