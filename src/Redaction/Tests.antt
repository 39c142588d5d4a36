-- ===== src/Redaction/Tests.antt =====
-- The theorems on a rule that takes every text to hold the secret "sk" once.
use khulnasoft_lsp.Base.{List, [], ◌∷◌, none, some, JsText, ◌≡◌, refl}
use khulnasoft_lsp.Redaction.{Match, GitleaksRule, group_of, redact_secrets}
use khulnasoft_lsp.Redaction.Masking.{HasSecrets, GivesMasked, redact_secrets-GivesMasked}
use khulnasoft_lsp.Redaction.Matches.{rule_of}

abbrev same_case : JsText → JsText
same_case text = text

abbrev secret : JsText
secret = 115 ∷ 107 ∷ []

abbrev match_one : JsText → List Match
match_one text = (some secret ∷ []) ∷ []

abbrev rule : GitleaksRule
rule = rule_of same_case none none match_one

rule-HasSecrets : HasSecrets rule
unfolding group_of
rule-HasSecrets match_all e text =
    let f : match_one ≡ match_all = cc in rw (← f) ((secret, refl), tt)

-- "ask"
abbrev text : JsText
text = 97 ∷ 115 ∷ 107 ∷ []

redact_secrets-GivesMasked_example : GivesMasked text (redact_secrets same_case (rule ∷ []) text)
redact_secrets-GivesMasked_example =
    redact_secrets-GivesMasked same_case (rule ∷ []) text (rule-HasSecrets, tt)

text_redacted : redact_secrets same_case (rule ∷ []) text ≡ some (97 ∷ 42 ∷ 42 ∷ [])
unfolding redact_secrets
text_redacted = refl

-- "ta"
abbrev start : JsText
start = 116 ∷ 97 ∷ []
