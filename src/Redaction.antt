-- ===== src/Redaction.antt =====
-- `src/common/secret_redaction/index.ts`, and the transformation of documents around it in
-- `src/common/document_transformer_service.ts`. The rules' regular expressions and `toLowerCase` are parameters.
pub mod Masking
pub mod Matches
mod Tests
use khulnasoft_lsp.Base.{
  ℕ, suc, zero, Bool, true, false, List, [], ◌∷◌, Option, none, some, length, if◌then◌else◌, JsText,
  replace_first, includes, any,
}

-- What `matchAll` gives for a match: the whole match and its groups, of which some may not take part.
abbrev pub Match : Type 0
Match = List (Option JsText)

-- The fields of `IGitleaksRule` that are read; `compiledRegex` is what `matchAll` gives with it.
pub record GitleaksRule : Type 0 where
  pub secret_group : Option ℕ
  pub keywords : Option (List JsText)
  pub compiled_regex : Option (JsText → List Match)

-- `match[group]`
unfoldable pub group_of : Match → ℕ → Option JsText
group_of [] n = none
group_of (g ∷ gs) zero = g
group_of (g ∷ gs) (suc n) = group_of gs n

abbrev pub or_whole : Option ℕ → ℕ
or_whole none = 0
or_whole (some n) = n

-- `'*'`
abbrev pub star : ℕ
star = 42

-- `'*'.repeat(n)`
unfoldable pub repeat_star : ℕ → JsText
repeat_star zero = []
repeat_star (suc n) = star ∷ repeat_star n

-- `redacted.replace(secret, '*'.repeat(secret.length))`; without a secret, `secret.length` throws.
unfoldable pub replace_secret : JsText → Option JsText → Option JsText
unfolding repeat_star replace_first
replace_secret redacted none = none
replace_secret redacted (some secret) =
    some (replace_first secret (repeat_star (length secret)) redacted)

-- The `reduce` over the matches of a rule; `none` means that it throws.
unfoldable pub replace_secrets : ℕ → List Match → JsText → Option JsText
unfolding group_of replace_secret
replace_secrets group [] redacted = some redacted
replace_secrets group (m ∷ ms) redacted = elim (replace_secret redacted (group_of m group)) [
  | none ↦ none
  | some next ↦ replace_secrets group ms next
]

-- The texts of `IDocContext`; its other fields are passed on.
pub record DocContext : Type 0 where
  pub prefix : JsText
  pub suffix : JsText
  pub uri : JsText

module _ (to_lower_case : JsText → JsText) where
  -- `#keywordHit`
  unfoldable pub keyword_hit : GitleaksRule → JsText → Bool
  keyword_hit rule raw = elim rule.keywords [
    | none ↦ true
    | some [] ↦ true
    | some (k ∷ ks) ↦ any (λ (keyword : JsText). includes (to_lower_case raw) keyword) (k ∷ ks)
  ]

  -- `#redactRuleSecret`
  unfoldable pub redact_rule_secret : JsText → GitleaksRule → Option JsText
  unfolding keyword_hit replace_secrets
  redact_rule_secret text rule = elim rule.compiled_regex [
    | none ↦ some text
    | some match_all ↦
        if keyword_hit rule text
        then replace_secrets (or_whole rule.secret_group) (match_all text) text
        else some text
  ]

  unfoldable pub redact_secrets : List GitleaksRule → JsText → Option JsText
  unfolding redact_rule_secret
  redact_secrets [] redacted = some redacted
  redact_secrets (rule ∷ rules) redacted = elim (redact_rule_secret redacted rule) [
    | none ↦ none
    | some next ↦ redact_secrets rules next
  ]

  -- `transform`, with the configuration's `enableSecretRedaction`.
  unfoldable pub transform : Bool → List GitleaksRule → DocContext → Option DocContext
  unfolding redact_secrets
  transform enabled rules context =
      if enabled
      then elim (redact_secrets rules context.prefix) [
        | none ↦ none
        | some prefix ↦ elim (redact_secrets rules context.suffix) [
          | none ↦ none
          | some suffix ↦ some (record context { prefix = prefix; suffix = suffix })
        ]
      ]
      else some context
