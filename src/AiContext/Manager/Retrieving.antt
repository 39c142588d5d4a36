-- ===== src/AiContext/Manager/Retrieving.antt =====
-- What leaves the manager with its content.
use khulnasoft_lsp.Base.{
  true, false, List, [], ◌∷◌, map, Option, none, some, if◌then◌else◌, All, find, JsText,
  Option-cases, Bool-cases, inl, inr, ◌≡◌, ◌⊎◌, refl, arith,
}
use khulnasoft_lsp.Redaction.{GitleaksRule, redact_secrets}
use khulnasoft_lsp.AiContext.Items.{ProviderType, ContextItem}
use khulnasoft_lsp.AiContext.Transformers.{
  Transformer, transform_by, is_binary_content, disable, transform_binary, with_content,
  transform_secrets,
}
use khulnasoft_lsp.AiContext.Manager.{
  ProviderClass, Entry, Manager, serves, gather, transform_item_content, retrieve_all,
  retrieve_context_items_with_content, get_item_with_content,
}

-- With `toLowerCase` and the rules: no content; or an empty one; or the redaction of a content.
abbrev pub IsRedacted : (JsText → JsText) → List GitleaksRule → ContextItem → Type 0
IsRedacted to_lower_case rules item =
    (item.content ≡ none)
    ⊎ (item.content ≡ some [])
    ⊎ ((raw text : JsText) × (redact_secrets to_lower_case rules raw ≡ some text)
        × (item.content ≡ some text))

module _ (to_lower_case : JsText → JsText) (rules : List GitleaksRule) where
  -- The transformers in the order of `contributions.ts`, of which the redaction is enabled.
  abbrev pub transform : Transformer
  transform = transform_by (transform_secrets to_lower_case true rules ∷ transform_binary ∷ [])

  transform_secrets-IsRedacted :
      (item next : ContextItem)
      → transform_secrets to_lower_case true rules item ≡ some next
      → IsRedacted to_lower_case rules next
  unfolding transform_secrets
  transform_secrets-IsRedacted item next e = go item.content refl e
    where
      go :
          (c : Option JsText)
          → item.content ≡ c
          → (elim c [
            | none ↦ some item
            | some [] ↦ some item
            | some (u ∷ content) ↦
                with_content item (redact_secrets to_lower_case rules (u ∷ content))
          ])
            ≡ some next
          → IsRedacted to_lower_case rules next
      go none h f = inl (ground arith)
      go (some []) h f = inr (inl (ground arith))
      go (some (u ∷ content)) h f =
          elim (Option-cases (redact_secrets to_lower_case rules (u ∷ content))) [
            | inl n ↦ absurd (ground arith)
            | inr (t, r) ↦ inr (inr (u ∷ content, t, r, ground arith))
          ]

  transform_binary-IsRedacted :
      (item next : ContextItem)
      → transform_binary item ≡ some next
      → IsRedacted to_lower_case rules item
      → IsRedacted to_lower_case rules next
  unfolding transform_binary
  transform_binary-IsRedacted item next e r = go item.content e
    where
      same : some item ≡ some next → IsRedacted to_lower_case rules next
      same f = let g : item ≡ next = cc in rw (← g) r

      go :
          (c : Option JsText)
          → (elim c [
            | none ↦ some item
            | some [] ↦ some item
            | some (u ∷ content) ↦
                if is_binary_content (u ∷ content) then some (disable item) else some item
          ])
            ≡ some next
          → IsRedacted to_lower_case rules next
      go none f = same f
      go (some []) f = same f
      go (some (u ∷ content)) f = elim (Bool-cases (is_binary_content (u ∷ content))) [
        | inl b ↦ let g : next ≡ disable item = ground arith in rw g (inr (inl refl))
        | inr b ↦ same (ground arith)
      ]

  two_transformers :
      (f g : Transformer) (item : ContextItem)
      → ((next : ContextItem) → f item ≡ some next → IsRedacted to_lower_case rules next)
      → ((next last : ContextItem)
          → g next ≡ some last
          → IsRedacted to_lower_case rules next
          → IsRedacted to_lower_case rules last)
      → IsRedacted to_lower_case rules (transform_item_content (transform_by (f ∷ g ∷ [])) item)
  unfolding transform_item_content transform_by
  two_transformers f g item first second = elim (Option-cases (f item)) [
    | inl n ↦ rw (n, transform_item_content) (inl refl)
    | inr (next, e) ↦ elim (Option-cases (g next)) [
      | inl m ↦ rw (e, transform_item_content) (rw (m, transform_by) (inl refl))
      | inr (last, h) ↦
          rw (e, transform_item_content) (rw (h, transform_by) (second next last h (first next e)))
    ]
  ]

  transform_item_content-IsRedacted :
      (item : ContextItem) → IsRedacted to_lower_case rules (transform_item_content transform item)
  transform_item_content-IsRedacted item =
      two_transformers (transform_secrets to_lower_case true rules) transform_binary item
        (transform_secrets-IsRedacted item) transform_binary-IsRedacted

  All-IsRedacted :
      (items : List ContextItem)
      → All (IsRedacted to_lower_case rules) (map (transform_item_content transform) items)
  All-IsRedacted [] = tt
  All-IsRedacted (item ∷ items) = (transform_item_content-IsRedacted item, All-IsRedacted items)

  -- With the redaction of secrets enabled, each item that is retrieved, alone or with the others, has no content, an
  -- empty one, or what the redaction gives for a content, whatever the providers give and whether or not the redaction throws.
  pub retrieve-IsRedacted :
      (class_of : ProviderType → ProviderClass) (manager : Manager) (item found : ContextItem)
      (items : List ContextItem)
      → (retrieve_context_items_with_content class_of false transform manager ≡ some items
          → All (IsRedacted to_lower_case rules) items)
        × (get_item_with_content class_of transform item manager ≡ some found
            → IsRedacted to_lower_case rules found)
  unfolding retrieve_context_items_with_content get_item_with_content
  retrieve-IsRedacted class_of manager item found items = (
    retrieved (gather (retrieve_all class_of manager.providers)),
    one (find (serves item.metadata.sub_type) manager.providers),
  )
    where
      retrieved :
          (o : Option (List ContextItem))
          → (elim o [
            | none ↦ none
            | some given ↦ some (map (transform_item_content transform) given)
          ])
            ≡ some items
          → All (IsRedacted to_lower_case rules) items
      retrieved none e = absurd (cc)
      retrieved (some given) e =
          let f : map (transform_item_content transform) given ≡ items = cc in
          rw (← f) (All-IsRedacted given)

      transformed :
          (o : Option ContextItem)
          → (elim o [ none ↦ none | some given ↦ some (transform_item_content transform given) ])
            ≡ some found
          → IsRedacted to_lower_case rules found
      transformed none e = absurd (cc)
      transformed (some given) e =
          let f : transform_item_content transform given ≡ found = cc in
          rw (← f) (transform_item_content-IsRedacted given)

      one :
          (o : Option Entry)
          → (elim o [
            | none ↦ none
            | some entry ↦ elim ((class_of entry.provider.type).get_item_with_content item) [
              | none ↦ none
              | some given ↦ some (transform_item_content transform given)
            ]
          ])
            ≡ some found
          → IsRedacted to_lower_case rules found
      one none e = absurd (cc)
      one (some entry) e = transformed ((class_of entry.provider.type).get_item_with_content item) e
