-- ===== src/Redaction/Matches.antt =====
-- Which occurrence of a secret is redacted.
use khulnasoft_lsp.Base.{
  ℕ, ◌+◌, ◌≤◌, suc, zero, true, false, List, [], ◌∷◌, ◌++◌, Option, some, length, drop,
  length-append, length-drop, Bool-cases, JsText, replace_first, starts_with, ◌≡◌, inl, inr, refl,
  ap, sym, ◌∙◌, arith,
}
use mathlib.Core.List.{append_assoc}
use khulnasoft_lsp.Redaction.{
  Match, GitleaksRule, group_of, or_whole, repeat_star, replace_secrets, keyword_hit,
  redact_rule_secret, redact_secrets,
}
use khulnasoft_lsp.Redaction.Masking.{replace_secret_found, length-repeat_star}

starts_with-append : (p y : JsText) → starts_with (p ++ y) p ≡ true
unfolding starts_with
starts_with-append [] [] = refl
starts_with-append [] (u ∷ y) = refl
starts_with-append (v ∷ p) y = ground (arith, starts_with-append p y)

drop-append : (n : ℕ) (x y : JsText) → n ≤ length x → drop n (x ++ y) ≡ drop n x ++ y
drop-append zero x y h = refl
drop-append (suc n) [] y h = absurd (omega arith)
drop-append (suc n) (u ∷ x) y h = drop-append n x y (omega arith)

drop_whole : (x y : JsText) → drop (length x) (x ++ y) ≡ y
drop_whole [] y = refl
drop_whole (u ∷ x) y = drop_whole x y

-- Where the text has the pattern at once, it is replaced.
replace_first-append : (p y r : JsText) → length r ≡ length p → replace_first p r (p ++ y) ≡ r ++ y
unfolding replace_first
replace_first-append [] [] [] h = refl
replace_first-append [] (u ∷ y) [] h = unfold starts_with in refl
replace_first-append [] y (v ∷ r) h = absurd (omega arith)
replace_first-append (v ∷ p) y r h =
    rw (starts_with-append (v ∷ p) y) (ap (◌++◌ r) (drop_whole (v ∷ p) y))

-- Nothing behind an occurrence is touched.
replace_first_leaves :
    (p x y : JsText)
    → (z : JsText) × (replace_first p (repeat_star (length p)) (x ++ (p ++ y)) ≡ z ++ y)
      × (length z ≡ length x + length p)
unfolding replace_first
replace_first_leaves p [] y = (
  repeat_star (length p),
  replace_first-append p y (repeat_star (length p)) (length-repeat_star (length p)),
  omega (arith, length-repeat_star (length p)),
)
replace_first_leaves p (u ∷ x) y = elim (Bool-cases (starts_with (u ∷ (x ++ (p ++ y))) p)) [
  | inl e ↦ (
    repeat_star (length p) ++ drop (length p) (u ∷ (x ++ p)),
    rw e (
        ap (◌++◌ (repeat_star (length p))) (
          ap (λ (t : JsText). drop (length p) (u ∷ t)) (sym (append_assoc x p y))
          ∙ drop-append (length p) (u ∷ (x ++ p)) y (omega (arith, length-append {0} x p)))
        ∙ sym (append_assoc (repeat_star (length p)) (drop (length p) (u ∷ (x ++ p))) y)),
    omega (
      arith,
      length-append {0} (repeat_star (length p)) (drop (length p) (u ∷ (x ++ p))),
      length-repeat_star (length p),
      length-drop {0} (length p) (u ∷ (x ++ p)),
      length-append {0} x p,
    ),
  )
  | inr e ↦ let (z, f, l) = replace_first_leaves p x y in (u ∷ z, rw e (ap (◌∷◌ u) f), omega arith)
]

-- The pattern does not occur so as to begin in `x`, which `y` follows.
abbrev pub Lacks : JsText → JsText → JsText → Type 0
Lacks p y [] = Unit
Lacks p y (u ∷ x) = (starts_with (u ∷ (x ++ y)) p ≡ false) × Lacks p y x

replace_first-Lacks :
    (p x y r : JsText)
    → length r ≡ length p
    → Lacks p (p ++ y) x
    → replace_first p r (x ++ (p ++ y)) ≡ x ++ (r ++ y)
unfolding replace_first
replace_first-Lacks p [] y r h l = replace_first-append p y r h
replace_first-Lacks p (u ∷ x) y r h (n, l) = rw n (ap (◌∷◌ u) (replace_first-Lacks p x y r h l))

-- A rule, with `toLowerCase`, that has one match in a text.
module _ (to_lower_case : JsText → JsText) (group : Option ℕ) (keywords : Option (List JsText))
    (match_all : JsText → List Match) where
  abbrev pub rule_of : GitleaksRule
  rule_of = record { secret_group = group; keywords = keywords; compiled_regex = some match_all }

  module _ (m : Match) (secret before after : JsText)
      (hit : keyword_hit to_lower_case rule_of (before ++ (secret ++ after)) ≡ true)
      (one : match_all (before ++ (secret ++ after)) ≡ m ∷ [])
      (found : group_of m (or_whole group) ≡ some secret) where
    redact_secrets_one :
        redact_secrets to_lower_case (rule_of ∷ []) (before ++ (secret ++ after))
        ≡ some (replace_first secret (repeat_star (length secret)) (before ++ (secret ++ after)))
    unfolding redact_secrets redact_rule_secret replace_secrets
    redact_secrets_one = rw (hit) (
        rw (one) (
          rw
            (replace_secret_found (before ++ (secret ++ after)) secret (group_of m (or_whole group))
              found)
            refl))

    -- When a rule has one match in a text, and the secret of the match does not occur before a place, the occurrence
    -- of the secret at that place is replaced by stars, and nothing else changes.
    pub redact_secrets-Lacks :
        Lacks secret (secret ++ after) before
        → redact_secrets to_lower_case (rule_of ∷ []) (before ++ (secret ++ after))
          ≡ some (before ++ (repeat_star (length secret) ++ after))
    redact_secrets-Lacks l =
        redact_secrets_one
        ∙ ap some (replace_first-Lacks secret before after _ (length-repeat_star (length secret)) l)

    -- When a rule has one match in a text, all that follows any occurrence of the secret is left, a further
    -- occurrence too, though it be the one that the rule matched.
    pub redact_secrets_leaves :
        (z : JsText) × (redact_secrets to_lower_case (rule_of ∷ []) (before ++ (secret ++ after))
          ≡ some (z ++ after))
        × (length z ≡ length before + length secret)
    redact_secrets_leaves =
        let (z, e, l) = replace_first_leaves secret before after in
        (z, redact_secrets_one ∙ ap some e, l)
