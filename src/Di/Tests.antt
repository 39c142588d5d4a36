-- ===== src/Di/Tests.antt =====
-- The theorems on the container at two classes: a logger without dependencies, and a client that takes
-- the logger and the collection of handlers, of which there are none.
use khulnasoft_lsp.Base.{
  ℕ, ◌≤◌, List, [], ◌∷◌, ◌≡◌, ◌≢◌, refl, contains, number_key, add, remove, All, find,
}
use khulnasoft_lsp.Base.JsMap.{JsMap}
use khulnasoft_lsp.Di.Classes.{
  ok, interface_id, collection_id, ok, Metadata, ClassWithDependencies, throw, no_instance,
}
use khulnasoft_lsp.Di.Validation.{
  no_circular_dependencies, has_circular_dependency, check_all, any_circular, enter, leave,
  class_of,
}
use khulnasoft_lsp.Di.Validation.Acyclic.{Grounded, Chain, no_circular_dependencies-Grounded}
use khulnasoft_lsp.Di.Order.{sort_dependencies}
use khulnasoft_lsp.Di.Order.Topological.{IsTopological, Provided, seen_after}
use khulnasoft_lsp.Di.Order.Total.{sort_dependencies_total}
use khulnasoft_lsp.Di.Container.{Argument, instantiate}
use khulnasoft_lsp.Di.Container.Validated.{instantiate-provided}

abbrev logger : ClassWithDependencies
logger = record { cls = 11; id = 1; dependencies = [] }

abbrev client : ClassWithDependencies
client = record { cls = 12; id = 2; dependencies = interface_id 1 ∷ [] }

abbrev metadata : JsMap ℕ Metadata
metadata =
    (11, record { id = 1; dependencies = [] })
    ∷ (12, record { id = 2; dependencies = interface_id 1 ∷ collection_id 3 ∷ [] })
    ∷ []

abbrev twins : JsMap ℕ Metadata
twins =
    (11, record { id = 1; dependencies = [] })
    ∷ (12, record { id = 1; dependencies = collection_id 1 ∷ [] })
    ∷ []

-- An instance is the class that it is of.
abbrev construct : ℕ → List (Argument ℕ) → ℕ
construct cls args = cls

no_circular_dependencies-Grounded_example :
    All
      (λ (c : ClassWithDependencies).
        Grounded (client ∷ logger ∷ []) c.id × (Chain (client ∷ logger ∷ []) c.id c.id → ⊥))
      (client ∷ logger ∷ [])
unfolding no_circular_dependencies check_all has_circular_dependency contains class_of find enter
    any_circular leave add remove
no_circular_dependencies-Grounded_example =
    no_circular_dependencies-Grounded 3 (client ∷ logger ∷ []) [] refl

sort_dependencies_total_example :
    (n : ℕ) × ((m : ℕ)
      → n ≤ m
      → (sorted : List ClassWithDependencies) × (sort_dependencies m (client ∷ logger ∷ [])
          ≡ ok sorted)
        × IsTopological (client ∷ logger ∷ []) [] sorted
        × All
            (λ (c : ClassWithDependencies).
              Provided (client ∷ logger ∷ []) c.id (seen_after [] sorted))
            (client ∷ logger ∷ []))
unfolding no_circular_dependencies check_all has_circular_dependency contains class_of find enter
    any_circular leave add remove
sort_dependencies_total_example =
    sort_dependencies_total 3 (client ∷ logger ∷ []) [] (refl, (refl, tt)) refl

instantiate-provided_example :
    (instantiate construct 9 metadata (12 ∷ 11 ∷ []) []).1 ≢ throw (no_instance 1)
instantiate-provided_example = instantiate-provided construct 9 metadata (12 ∷ 11 ∷ []) [] 1 tt
