-- ===== src/Redaction/Masking.antt =====
-- What is left of a text after redaction.
use khulnasoft_lsp.Base.{
  ℕ, ◌≤◌, suc, zero, true, List, [], ◌∷◌, ◌++◌, Option, none, some, length, drop, if◌then◌else◌,
  if_cases, All, JsText, replace_first, starts_with, ◌≡◌, ◌⊎◌, ◌∙◌, inl, inr, refl, arith, ap,
}
use khulnasoft_lsp.Redaction.{
  Match, GitleaksRule, group_of, or_whole, star, repeat_star, replace_secret, replace_secrets,
  keyword_hit, redact_rule_secret, redact_secrets,
}

-- The texts are equally long, and each unit is kept or is a star.
abbrev pub IsMasked : JsText → JsText → Type 0
IsMasked [] [] = Unit
IsMasked [] (v ∷ t) = ⊥
IsMasked (u ∷ s) [] = ⊥
IsMasked (u ∷ s) (v ∷ t) = ((v ≡ u) ⊎ (v ≡ star)) × IsMasked s t

IsMasked-refl : (s : JsText) → IsMasked s s
IsMasked-refl [] = tt
IsMasked-refl (u ∷ s) = (inl refl, IsMasked-refl s)

masked_unit : (u v w : ℕ) → (v ≡ u) ⊎ (v ≡ star) → (w ≡ v) ⊎ (w ≡ star) → (w ≡ u) ⊎ (w ≡ star)
masked_unit u v w (inl e) (inl f) = inl (f ∙ e)
masked_unit u v w (inr e) (inl f) = inr (f ∙ e)
masked_unit u v w h (inr f) = inr f

IsMasked-trans : (s t r : JsText) → IsMasked s t → IsMasked t r → IsMasked s r
IsMasked-trans [] [] [] h g = tt
IsMasked-trans [] [] (w ∷ r) h g = elim g [ ]
IsMasked-trans [] (v ∷ t) r h g = elim h [ ]
IsMasked-trans (u ∷ s) [] r h g = elim h [ ]
IsMasked-trans (u ∷ s) (v ∷ t) [] h g = elim g [ ]
IsMasked-trans (u ∷ s) (v ∷ t) (w ∷ r) (h, hs) (g, gs) =
    (masked_unit u v w h g, IsMasked-trans s t r hs gs)

pub length-repeat_star : (n : ℕ) → length (repeat_star n) ≡ n
unfolding repeat_star
length-repeat_star zero = refl
length-repeat_star (suc n) = ap suc (length-repeat_star n)

-- Stars in place of as many units at the start.
stars_first : (n : ℕ) (s : JsText) → n ≤ length s → IsMasked s (repeat_star n ++ drop n s)
unfolding repeat_star
stars_first zero s h = IsMasked-refl s
stars_first (suc n) [] h = absurd (omega arith)
stars_first (suc n) (u ∷ s) h = (inr refl, stars_first n s (omega arith))

pub starts_with-length : (s p : JsText) → starts_with s p ≡ true → length p ≤ length s
unfolding starts_with
starts_with-length s [] h = omega arith
starts_with-length [] (v ∷ p) h = ground arith
starts_with-length (u ∷ s) (v ∷ p) h = ground (arith, starts_with-length s p)

replace_first-IsMasked : (p s : JsText) → IsMasked s (replace_first p (repeat_star (length p)) s)
unfolding replace_first
replace_first-IsMasked [] [] = unfold repeat_star in tt
replace_first-IsMasked (v ∷ p) [] = tt
replace_first-IsMasked p (u ∷ s) =
    if_cases (IsMasked (u ∷ s)) (starts_with (u ∷ s) p) _ _
      (λ e. stars_first (length p) (u ∷ s) (starts_with-length (u ∷ s) p e))
      (λ e. (inl refl, replace_first-IsMasked p s))

-- Every match has the group in which the rule looks for the secret.
abbrev pub HasGroup : ℕ → Match → Type 0
HasGroup group m = (secret : JsText) × (group_of m group ≡ some secret)

abbrev pub HasSecrets : GitleaksRule → Type 0
HasSecrets rule =
    (match_all : JsText → List Match)
    → rule.compiled_regex ≡ some match_all
    → (text : JsText) → All (HasGroup (or_whole rule.secret_group)) (match_all text)

-- It returns, and what it returns is the text masked.
abbrev pub GivesMasked : JsText → Option JsText → Type 0
GivesMasked raw result = (r : JsText) × (result ≡ some r) × IsMasked raw r

pub replace_secret_found :
    (text secret : JsText) (o : Option JsText)
    → o ≡ some secret
    → replace_secret text o ≡ some (replace_first secret (repeat_star (length secret)) text)
unfolding replace_secret
replace_secret_found text secret o e = ap (replace_secret text) e

replace_secrets-GivesMasked :
    (group : ℕ) (ms : List Match) (raw text : JsText)
    → IsMasked raw text
    → All (HasGroup group) ms
    → GivesMasked raw (replace_secrets group ms text)
unfolding replace_secrets
replace_secrets-GivesMasked group [] raw text h hs = (text, refl, h)
replace_secrets-GivesMasked group (m ∷ ms) raw text h ((secret, e), hs) =
    rw (replace_secret_found text secret (group_of m group) e, replace_secrets)
      (replace_secrets-GivesMasked group ms raw _
        (IsMasked-trans raw text _ h (replace_first-IsMasked secret text)) hs)

module _ (to_lower_case : JsText → JsText) where
  redact_rule_secret-GivesMasked :
      (raw text : JsText) (rule : GitleaksRule)
      → IsMasked raw text
      → HasSecrets rule
      → GivesMasked raw (redact_rule_secret to_lower_case text rule)
  unfolding redact_rule_secret
  redact_rule_secret-GivesMasked raw text rule h hs = go rule.compiled_regex hs
    where
      go :
          (o : Option (JsText → List Match))
          → ((match_all : JsText → List Match)
              → o ≡ some match_all
              → (t : JsText) → All (HasGroup (or_whole rule.secret_group)) (match_all t))
          → GivesMasked raw (elim o [
            | none ↦ some text
            | some match_all ↦
                if keyword_hit to_lower_case rule text
                then replace_secrets (or_whole rule.secret_group) (match_all text) text
                else some text
          ])
      go none g = (text, refl, h)
      go (some match_all) g =
          if_cases (GivesMasked raw) (keyword_hit to_lower_case rule text) _ _
            (λ e.
              replace_secrets-GivesMasked (or_whole rule.secret_group) (match_all text) raw text h
                (g match_all refl text))
            (λ e. (text, refl, h))

  redact_from-GivesMasked :
      (rules : List GitleaksRule) (raw text : JsText)
      → IsMasked raw text
      → All HasSecrets rules
      → GivesMasked raw (redact_secrets to_lower_case rules text)
  unfolding redact_secrets
  redact_from-GivesMasked [] raw text h hs = (text, refl, h)
  redact_from-GivesMasked (rule ∷ rules) raw text h (g, gs) =
      let (r, e, m) = redact_rule_secret-GivesMasked raw text rule h g in
      rw (e, redact_secrets) (redact_from-GivesMasked rules raw r m gs)

  -- If every match of every rule has the group of the secret, the redaction returns, and gives a text of the same
  -- length in which each unit is kept or is a star.
  pub redact_secrets-GivesMasked :
      (rules : List GitleaksRule) (raw : JsText)
      → All HasSecrets rules
      → GivesMasked raw (redact_secrets to_lower_case rules raw)
  redact_secrets-GivesMasked rules raw hs =
      redact_from-GivesMasked rules raw raw (IsMasked-refl raw) hs
