-- ===== src/Base/JsMap.antt =====
-- JavaScript's `Map`: entries in the order in which their keys were first set. A `set` on a key
-- that is there replaces its value in place; a `delete` takes the entry out.
use mathlib.Core.Path.{◌≡◌, refl}
use mathlib.Core.Bool.{Bool, false, ◌||◌}
use mathlib.Core.List.{List, [], ◌∷◌}
use mathlib.Core.Option.{Option, none, some}
use native.Mathlib.Omega.{arith}
use khulnasoft_lsp.Base.Tests.{if◌then◌else◌, is_some}
use khulnasoft_lsp.Base.Keys.{Key, ◌===◌, ===_refl}

abbrev pub JsMap {ℓ κ} : Type ℓ → Type κ → Type (ℓ ⊔ κ)
JsMap K V = List (K × V)

module _ {ℓ κ} {K : Type ℓ} {V : Type κ} ⦃e : Key K⦄ where
  -- `m.get(k)`
  unfoldable pub get : JsMap K V → K → Option V
  get [] k = none
  get ((j, v) ∷ m) k = if j === k then some v else get m k

  -- `m.set(k, v)`
  unfoldable pub set : JsMap K V → K → V → JsMap K V
  set [] k v = (k, v) ∷ []
  set ((j, w) ∷ m) k v = if j === k then (j, v) ∷ m else (j, w) ∷ set m k v

  -- `m.delete(k)`
  unfoldable pub delete : JsMap K V → K → JsMap K V
  delete [] k = []
  delete ((j, v) ∷ m) k = if j === k then delete m k else (j, v) ∷ delete m k

  -- `m.has(k)`
  unfoldable pub has : JsMap K V → K → Bool
  has m k = is_some (get m k)

  pub get-set :
      (m : JsMap K V) (k j : K) (v : V) → get (set m k v) j ≡ (if k === j then some v else get m j)
  unfolding get set
  get-set [] k j v = refl
  get-set ((i, w) ∷ m) k j v =
      ground (arith, e.same_iff k j, e.same_iff i k, e.same_iff i j, get-set m k j v)

  pub get-delete :
      (m : JsMap K V) (k j : K) → get (delete m k) j ≡ (if k === j then none else get m j)
  unfolding get delete
  get-delete [] k j = ground arith
  get-delete ((i, w) ∷ m) k j =
      ground (arith, e.same_iff k j, e.same_iff i k, e.same_iff i j, get-delete m k j)

  pub get-set_self : (m : JsMap K V) (k : K) (v : V) → get (set m k v) k ≡ some v
  get-set_self m k v = rw (get-set m k k v, ===_refl k)

  pub get-delete_self : (m : JsMap K V) (k : K) → get (delete m k) k ≡ none
  get-delete_self m k = rw (get-delete m k k, ===_refl k)

  -- The keys are distinct: an empty map has this, and `set` and `delete` keep it.
  abbrev pub Distinct : JsMap K V → Type 0
  Distinct [] = Unit
  Distinct ((k, v) ∷ m) = (has m k ≡ false) × Distinct m

  pub has-set : (m : JsMap K V) (k j : K) (v : V) → has (set m k v) j ≡ (k === j || has m j)
  unfolding has
  has-set m k j v = ground (arith, get-set m k j v)

  pub has-delete :
      (m : JsMap K V) (k j : K) → has (delete m k) j ≡ (if k === j then false else has m j)
  unfolding has
  has-delete m k j = ground (arith, get-delete m k j)

  pub set-Distinct : (m : JsMap K V) (k : K) (v : V) → Distinct m → Distinct (set m k v)
  unfolding set has get
  set-Distinct [] k v d = (refl, tt)
  set-Distinct ((j, w) ∷ m) k v d =
      ground (arith, set-Distinct m k v, has-set m k j v, e.same_iff j k, e.same_iff k j)

  pub delete-Distinct : (m : JsMap K V) (k : K) → Distinct m → Distinct (delete m k)
  unfolding delete
  delete-Distinct [] k d = tt
  delete-Distinct ((j, w) ∷ m) k d =
      ground (arith, delete-Distinct m k, has-delete m k j, e.same_iff j k, e.same_iff k j)
