-- ===== src/AiContext/Transformers.antt =====
-- `context_transformers`: the chain of transformers, the one for binary content (with
-- `src/common/utils/binary_content.ts`), and the one that redacts secrets.
use khulnasoft_lsp.Base.{
  ℕ, Bool, true, false, not, List, [], ◌∷◌, ◌++◌, Option, none, some, ◌&&◌, ◌||◌, leb, eqb, take,
  any, if◌then◌else◌, String, JsText, starts_with,
}
use khulnasoft_lsp.Redaction.{GitleaksRule, redact_secrets}
use khulnasoft_lsp.AiContext.Items.{ContextItem}

-- `transform`, which may throw.
abbrev pub Transformer : Type 0
Transformer = ContextItem → Option ContextItem

-- `transform` of the service: one after the other.
unfoldable pub transform_by : List Transformer → ContextItem → Option ContextItem
transform_by [] item = some item
transform_by (t ∷ ts) item = elim (t item) [ none ↦ none | some next ↦ transform_by ts next ]

abbrev pub byte_order_mark : JsText
byte_order_mark = 65279 ∷ []

abbrev pub swapped_mark : JsText
swapped_mark = 65534 ∷ []

-- "%PDF-"
abbrev pub pdf_start : JsText
pdf_start = 37 ∷ 80 ∷ 68 ∷ 70 ∷ 45 ∷ []

-- `CONTROL_CHARS_REGEX`, with the null byte
unfoldable pub is_control : ℕ → Bool
is_control u = leb u 8 || eqb u 11 || eqb u 12 || leb 14 u && leb u 31

unfoldable pub is_binary_content : JsText → Bool
unfolding starts_with any is_control
is_binary_content content =
    if starts_with content byte_order_mark || starts_with content swapped_mark
    then false
    else if starts_with content pdf_start
    then true
    else any is_control (take 8192 content)

abbrev pub binary_reason : String
binary_reason = "Binary files are unsupported"

abbrev pub disable : ContextItem → ContextItem
disable item = record item {
  content = some [];
  metadata = record item.metadata {
    enabled = false;
    disabled_reasons = item.metadata.disabled_reasons ++ binary_reason ∷ [];
  };
}

-- `transform` of `DefaultBinaryFileTransformer`
unfoldable pub transform_binary : Transformer
unfolding is_binary_content
transform_binary item = elim item.content [
  | none ↦ some item
  | some [] ↦ some item
  | some (u ∷ content) ↦ if is_binary_content (u ∷ content) then some (disable item) else some item
]

abbrev pub with_content : ContextItem → Option JsText → Option ContextItem
with_content item none = none
with_content item (some redacted) = some (record item { content = some redacted })

-- `transform` of `DefaultSecretContextTransformer`, with `enableSecretRedaction`
unfoldable pub transform_secrets : (JsText → JsText) → Bool → List GitleaksRule → Transformer
unfolding redact_secrets
transform_secrets to_lower_case enabled rules item = elim item.content [
  | none ↦ some item
  | some [] ↦ some item
  | some (u ∷ content) ↦
      if not enabled
      then some item
      else with_content item (redact_secrets to_lower_case rules (u ∷ content))
]
