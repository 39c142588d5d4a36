-- ===== src/Di/Container.antt =====
-- `Container`. Instances are values of an abstract type, and `construct` stands for the constructors
-- of the classes, which are assumed not to throw. A method that throws half-way leaves the
-- instances that it has added.
pub mod Building
pub mod Errors
pub mod Validated
pub mod Overflow
use khulnasoft_lsp.Base.{
  ℕ, not, List, [], ◌∷◌, ◌++◌, map, filter, Option, none, some, if◌then◌else◌, Bool, true, false,
  number_key,
}
use khulnasoft_lsp.Base.JsMap
use khulnasoft_lsp.Base.JsMap.{JsMap}
use khulnasoft_lsp.Di.Classes.{
  DependencyId, interface_id, collection_id, Metadata, ClassWithDependencies, DiError, Result, ok,
  throw, undecorated, no_instance, multiple_instances, not_branded, ◌>>=◌,
}
use khulnasoft_lsp.Di.Validation.{dependencies_are_present, no_circular_dependencies}
use khulnasoft_lsp.Di.Order.{sort_dependencies}

-- An argument of a constructor: one instance, or the array of a collection.
pub data Argument {ℓ} (I : Type ℓ) : Type ℓ where
  one : I → Argument I
  many : List I → Argument I

-- `#instances`
abbrev pub Instances {ℓ} : Type ℓ → Type ℓ
Instances I = JsMap ℕ (List I)

-- The classes with their metadata; `none` if one is not decorated with `@Injectable`.
unfoldable pub with_class :
    ℕ → Option Metadata → Option (List ClassWithDependencies) → Option (List ClassWithDependencies)
with_class cls (some meta) (some rest) =
    some (record { cls = cls; id = meta.id; dependencies = meta.dependencies } ∷ rest)
with_class cls _ _ = none

unfoldable pub with_metadata : JsMap ℕ Metadata → List ℕ → Option (List ClassWithDependencies)
unfolding with_class
with_metadata metadata [] = some []
with_metadata metadata (cls ∷ classes) =
    with_class cls (JsMap.get metadata cls) (with_metadata metadata classes)

-- What validation and sorting give, if they do not throw.
unfoldable pub prepare :
    ℕ → List ClassWithDependencies → List ℕ → Result (List ClassWithDependencies)
prepare depth cwds symbols = dependencies_are_present cwds symbols >>= λ _.
    no_circular_dependencies depth cwds symbols >>= λ _. sort_dependencies depth cwds

module _ {ℓ} {I : Type ℓ} where
  abbrev pub or_empty : Option (List I) → List I
  or_empty none = []
  or_empty (some is) = is

  -- Both methods add an instance at the end of those of its symbol.
  unfoldable pub add_instance : ℕ → I → Instances I → Instances I
  add_instance symbol i m = JsMap.set m symbol (or_empty (JsMap.get m symbol) ++ i ∷ [])

  -- `addInstances`. An argument is given with the id that it was branded with.
  unfoldable pub add_instances : List (I × Option ℕ) → Instances I → Instances I × Result (Unit {0})
  unfolding add_instance
  add_instances [] m = (m, ok tt)
  add_instances ((i, none) ∷ is) m = (m, throw not_branded)
  add_instances ((i, some symbol) ∷ is) m = add_instances is (add_instance symbol i m)

  -- The one instance of a symbol.
  unfoldable pub single : ℕ → Option (List I) → Result I
  single symbol none = throw (no_instance symbol)
  single symbol (some []) = throw (no_instance symbol)
  single symbol (some (i ∷ [])) = ok i
  single symbol (some (i ∷ j ∷ is)) = throw (multiple_instances symbol)

  unfoldable pub argument : Instances I → DependencyId → Result (Argument I)
  unfolding single
  argument m (collection_id symbol) = ok (many (or_empty (JsMap.get m symbol)))
  argument m (interface_id symbol) = single symbol (JsMap.get m symbol) >>= λ i. ok (one i)

  -- `cwd.dependencies.map(…)`
  unfoldable pub arguments : Instances I → List DependencyId → Result (List (Argument I))
  unfolding argument
  arguments m [] = ok []
  arguments m (dep ∷ deps) = argument m dep >>= λ a. arguments m deps >>= λ rest. ok (a ∷ rest)

  -- `get`
  unfoldable pub get : Instances I → ℕ → Result I
  unfolding single
  get m symbol = single symbol (JsMap.get m symbol)

  -- `getAll`
  unfoldable pub get_all : Instances I → ℕ → List I
  get_all m symbol = or_empty (JsMap.get m symbol)

  module _ (construct : ℕ → List (Argument I) → I) where
    unfoldable pub construct_with :
        ClassWithDependencies
        → Result (List (Argument I))
        → Instances I
        → Instances I × Result (Unit {0})
    unfolding add_instance
    construct_with cwd (throw e) m = (m, throw e)
    construct_with cwd (ok args) m = (add_instance cwd.id (construct cwd.cls args) m, ok tt)

    abbrev pub and_then :
        Instances I × Result (Unit {0})
        → (Instances I → Instances I × Result (Unit {0}))
        → Instances I × Result (Unit {0})
    and_then (m, ok _) k = k m
    and_then (m, throw e) k = (m, throw e)

    -- The instances of the classes, in order.
    unfoldable pub build :
        List ClassWithDependencies → Instances I → Instances I × Result (Unit {0})
    unfolding construct_with arguments
    build [] m = (m, ok tt)
    build (cwd ∷ cwds) m =
        and_then (construct_with cwd (arguments m cwd.dependencies) m) (build cwds)

    unfoldable pub instantiate_sorted :
        Result (List ClassWithDependencies) → Instances I → Instances I × Result (Unit {0})
    unfolding build
    instantiate_sorted (throw e) m = (m, throw e)
    instantiate_sorted (ok sorted) m = build sorted m

    unfoldable pub instantiate_classes :
        ℕ → Option (List ClassWithDependencies) → Instances I → Instances I × Result (Unit {0})
    unfolding instantiate_sorted prepare
    instantiate_classes depth none m = (m, throw undecorated)
    instantiate_classes depth (some cwds) m =
        instantiate_sorted (prepare depth cwds (map (λ (e : ℕ × List I). e.0) m)) m

    -- `instantiate`, with at most `depth` nested calls in the searches.
    unfoldable pub instantiate :
        ℕ → JsMap ℕ Metadata → List ℕ → Instances I → Instances I × Result (Unit {0})
    unfolding instantiate_classes with_metadata
    instantiate depth metadata classes m =
        instantiate_classes depth (with_metadata metadata classes) m
