-- ===== src/PreProcessors/ByteSize/Bound.antt =====
-- How large a request is after its size has been limited.
use khulnasoft_lsp.Base.{
  ℕ, ◌+◌, ◌-◌, ◌≤◌, ◌<◌, Bool, false, not, List, [], ◌∷◌, ◌++◌, Option, none, some, ◌&&◌, ltb, leb,
  if_cases, JsText, is_white, ◌≡◌, refl, ap, arith,
}
use khulnasoft_lsp.PreProcessors.Items.{AiContextItem, PreProcessorItems, fine, or_empty}
use khulnasoft_lsp.PreProcessors.ByteSize.{
  width, get_byte_size, slice_bytes, below, subtract, or_start, before_last_space, or_whole,
  truncate_to_byte_limit, byte_size_limit, with_content, fit_items, limit_byte_size,
}

get_byte_size-append : (s t : JsText) → get_byte_size (s ++ t) ≡ get_byte_size s + get_byte_size t
unfolding get_byte_size
get_byte_size-append [] t = omega arith
get_byte_size-append (c ∷ s) t = omega (arith, get_byte_size-append s t)

-- A slice is larger than asked for by two bytes at most.
get_byte_size-slice_bytes : (n : ℕ) (t : JsText) → get_byte_size (slice_bytes n t) ≤ n + 2
unfolding slice_bytes get_byte_size width
get_byte_size-slice_bytes n [] = omega arith
get_byte_size-slice_bytes n (c ∷ t) = ground (arith, get_byte_size-slice_bytes (n - width c) t)

-- No text, or one that is not larger than `t`.
abbrev IsWithin : ℕ → Option JsText → Type 0
IsWithin n none = Unit
IsWithin n (some t) = get_byte_size t ≤ n

before_last_space-IsWithin :
    (in_run : Bool) (t : JsText) → IsWithin (get_byte_size t) (before_last_space in_run t)
unfolding before_last_space get_byte_size
before_last_space-IsWithin in_run [] = tt
before_last_space-IsWithin in_run (c ∷ t) =
    started (before_last_space (is_white c) t) (before_last_space-IsWithin (is_white c) t)
  where
    started :
        (o : Option JsText)
        → IsWithin (get_byte_size t) o
        → IsWithin (width c + get_byte_size t) (or_start (is_white c && not in_run) c o)
    started none h =
        if_cases (IsWithin (width c + get_byte_size t)) _ (some []) none (λ _. omega arith)
          (λ _. tt)
    started (some before) h = omega (arith, h)

get_byte_size-or_whole :
    (t : JsText) (o : Option JsText)
    → IsWithin (get_byte_size t) o
    → get_byte_size (or_whole t o) ≤ get_byte_size t
get_byte_size-or_whole t none h = omega arith
get_byte_size-or_whole t (some before) h = h

get_byte_size-truncate :
    (t : JsText) (k : ℕ)
    → get_byte_size (truncate_to_byte_limit t (below k)) ≤ get_byte_size t - k + 2
unfolding truncate_to_byte_limit
get_byte_size-truncate t k =
    let cut = slice_bytes (get_byte_size t - k) t in
    omega (
      arith,
      get_byte_size-slice_bytes (get_byte_size t - k) t,
      get_byte_size-or_whole cut (before_last_space false cut)
          (before_last_space-IsWithin false cut),
    )

-- The bytes of the contents of the items.
abbrev pub contents_size : List AiContextItem → ℕ
contents_size [] = 0
contents_size (item ∷ items) = get_byte_size (or_empty item.content) + contents_size items

contents_size-with_content :
    (t : JsText) (item : AiContextItem) → contents_size (with_content t item) ≤ get_byte_size t
contents_size-with_content [] item = omega arith
contents_size-with_content (c ∷ t) item = omega arith

contents_size-fit_items :
    (total : ℕ) (items : List AiContextItem)
    → total ≤ byte_size_limit
    → total + contents_size (fit_items total items) ≤ byte_size_limit + 2
unfolding fit_items
contents_size-fit_items total [] h = omega arith
contents_size-fit_items total (item ∷ items) h =
    let size = get_byte_size (or_empty item.content) in
    let cut = slice_bytes (byte_size_limit - total) (or_empty item.content) in
    if_cases Bounded (ltb byte_size_limit (total + size)) _ _
      (λ over.
        if_cases Bounded (leb byte_size_limit total) _ _ (λ full. omega arith)
          (λ room. omega (
            arith,
            h,
            get_byte_size-slice_bytes (byte_size_limit - total) (or_empty item.content),
            contents_size-with_content cut item,
          )))
      (λ under.
        let small : total + size ≤ byte_size_limit = ground arith in
        omega (arith, contents_size-fit_items (total + size) items small))
  where
    Bounded : List AiContextItem → Type 0
    Bounded is = total + contents_size is ≤ byte_size_limit + 2

fit_items_same :
    (total : ℕ) (items : List AiContextItem)
    → total + contents_size items ≤ byte_size_limit
    → fit_items total items ≡ items
unfolding fit_items
fit_items_same total [] h = refl
fit_items_same total (item ∷ items) h =
    let size = get_byte_size (or_empty item.content) in
    if_cases (λ (is : List AiContextItem). is ≡ item ∷ items) (ltb byte_size_limit (total + size)) _
      _ (λ over. absurd (ground arith))
      (λ under. ap (◌∷◌ item) (fit_items_same (total + size) items (omega (arith, h))))

subtract_larger : (a b : ℕ) → a < b → subtract a b ≡ below (b - a)
unfolding subtract
subtract_larger a b h = ground arith

-- The bytes of the document and of the contents of the items.
abbrev pub total_size : PreProcessorItems → ℕ
total_size items =
    get_byte_size items.prefix + get_byte_size items.suffix + contents_size items.ai_context_items

abbrev pub IsLimited : PreProcessorItems → PreProcessorItems → Type 0
IsLimited items limited =
    (total_size limited ≤ byte_size_limit + 2)
    × (limited.prefix ≡ items.prefix)
    × (total_size items ≤ byte_size_limit → limited ≡ items)

-- If the text before the cursor is not larger than the limit by itself, then what is left of a request is larger than
-- the limit by two bytes at most, and has the same text before the cursor. A request that is within the limit is
-- left as it is.
pub limit_byte_size-IsLimited :
    (items : PreProcessorItems)
    → get_byte_size items.prefix ≤ byte_size_limit
    → (limited : PreProcessorItems) × (limit_byte_size items ≡ some (limited, fine))
      × IsLimited items limited
unfolding limit_byte_size subtract
limit_byte_size-IsLimited items h = (
  _,
  refl,
  if_cases (IsLimited items) (ltb byte_size_limit (get_byte_size (items.prefix ++ items.suffix))) _
      _
      (λ over.
        let large : byte_size_limit < document_size = ground arith in
        rw (subtract_larger byte_size_limit document_size large) (
          omega (
            arith,
            h,
            size,
            large,
            get_byte_size-truncate items.suffix (document_size - byte_size_limit),
          ),
          refl,
          λ small. absurd (omega (arith, small, size, large)),
        ))
      (λ under. (
        (let small : document_size ≤ byte_size_limit = ground arith in
            omega
              (arith, size, contents_size-fit_items document_size items.ai_context_items small)),
        refl,
        λ small.
            ap (λ is. record items { ai_context_items = is })
              (fit_items_same _ items.ai_context_items (omega (arith, small, size))),
      )),
)
  where
    document_size : ℕ
    document_size = get_byte_size (items.prefix ++ items.suffix)

    size :
        get_byte_size (items.prefix ++ items.suffix)
        ≡ get_byte_size items.prefix + get_byte_size items.suffix
    size = get_byte_size-append items.prefix items.suffix
