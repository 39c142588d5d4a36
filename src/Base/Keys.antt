-- ===== src/Base/Keys.antt =====
-- Keys that the program compares by `===`: a test with its law, as an instance argument.
use Prim.Native.Nat.{ℕ}
use Prim.Native.String.{String}
use mathlib.Core.Path.{◌≡◌, refl}
use mathlib.Core.Logic.{◌↔◌}
use mathlib.Core.Bool.{Bool, true, false, ◌||◌}
use mathlib.Core.List.{List, [], ◌∷◌, ◌++◌}
use native.Mathlib.Omega.{arith}
use text.Mathlib.Text.{◌==◌ as str_eq}
use text.Mathlib.TextEquality.{eq_iff}
use khulnasoft_lsp.Base.Tests.{eqb, eqb_iff, if◌then◌else◌}

pub record Key {ℓ} (A : Type ℓ) : Type ℓ where
  pub same : A → A → Bool
  pub same_iff : (a b : A) → (same a b ≡ true) ↔ (a ≡ b)

infix 50 ◌===◌
abbrev pub ◌===◌ {ℓ} : {A : Type ℓ} ⦃e : Key A⦄ → A → A → Bool
◌===◌ ⦃e⦄ = e.same

pub ===_iff {ℓ} : {A : Type ℓ} ⦃e : Key A⦄ (a b : A) → (a === b ≡ true) ↔ (a ≡ b)
===_iff ⦃e⦄ a b = e.same_iff a b

pub ===_refl {ℓ} : {A : Type ℓ} ⦃e : Key A⦄ (a : A) → a === a ≡ true
===_refl ⦃e⦄ a = (e.same_iff a a).1 refl

instance abbrev pub number_key : Key ℕ
number_key = record { same = eqb; same_iff = eqb_iff }

instance abbrev pub text_key : Key String
text_key = record { same = str_eq; same_iff = eq_iff }

module _ {ℓ} {A : Type ℓ} ⦃e : Key A⦄ where
  -- `xs.includes(a)`, and `has` of a `Set` kept as the list of its elements.
  unfoldable pub contains : List A → A → Bool
  contains [] a = false
  contains (x ∷ xs) a = x === a || contains xs a

  -- `s.add(a)`
  unfoldable pub add : List A → A → List A
  add s a = if contains s a then s else s ++ a ∷ []

  -- `s.delete(a)`
  unfoldable pub remove : List A → A → List A
  remove [] a = []
  remove (x ∷ xs) a = if x === a then remove xs a else x ∷ remove xs a

  pub contains-append :
      (xs ys : List A) (a : A) → contains (xs ++ ys) a ≡ (contains xs a || contains ys a)
  unfolding contains
  contains-append [] ys a = refl
  contains-append (x ∷ xs) ys a = ground (arith, contains-append xs ys a)

  pub contains-add : (s : List A) (a b : A) → contains (add s a) b ≡ (a === b || contains s b)
  unfolding add contains
  contains-add s a b = ground (arith, contains-append s (a ∷ []) b, e.same_iff a b, e.same_iff b b)

  pub contains-remove :
      (s : List A) (a b : A) → contains (remove s a) b ≡ (if a === b then false else contains s b)
  unfolding remove contains
  contains-remove [] a b = ground arith
  contains-remove (x ∷ xs) a b =
      ground (arith, contains-remove xs a b, e.same_iff x a, e.same_iff x b, e.same_iff a b)
