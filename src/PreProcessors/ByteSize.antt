-- ===== src/PreProcessors/ByteSize.antt =====
-- `byte_size_limit.ts` and `src/common/utils/byte_size.ts`. A text is the list of its code points, without lone surrogates.
pub mod Bound
use khulnasoft_lsp.Base.{
  ℕ, ◌+◌, ◌-◌, Bool, true, false, not, List, [], ◌∷◌, ◌++◌, Option, none, some, ◌&&◌, ◌||◌, ltb,
  leb, eqb, if◌then◌else◌, JsText, is_white, any,
}
use khulnasoft_lsp.PreProcessors.Items.{
  AiContextItem, PreProcessorItems, PreProcessor, fine, or_empty,
}

-- The bytes of a code point in UTF-8.
unfoldable pub width : ℕ → ℕ
width c = if ltb c 128 then 1 else if ltb c 2048 then 2 else if ltb c 65536 then 3 else 4

-- `getByteSize`
unfoldable pub get_byte_size : JsText → ℕ
unfolding width
get_byte_size [] = 0
get_byte_size (c ∷ text) = width c + get_byte_size text

-- `Buffer.from(text).slice(0, n).toString()`: a code point that is cut is decoded as one U+FFFD.
unfoldable pub slice_bytes : ℕ → JsText → JsText
unfolding width
slice_bytes n [] = []
slice_bytes n (c ∷ text) =
    let rest = slice_bytes (n - width c) text in
    if leb (width c) n then c ∷ rest else if eqb n 0 then [] else 65533 ∷ []

-- A number of bytes, which may be negative.
pub data ByteLimit : Type 0 where
  at_most below : ℕ → ByteLimit

unfoldable pub subtract : ℕ → ℕ → ByteLimit
subtract a b = if leb b a then at_most (a - b) else below (b - a)

abbrev pub fits : ℕ → ByteLimit → Bool
fits size (at_most n) = leb size n
fits size (below n) = false

-- Where `slice(0, byteLimit)` ends: a negative end counts from the end of the bytes.
abbrev pub slice_end : ℕ → ByteLimit → ℕ
slice_end size (at_most n) = n
slice_end size (below n) = size - n

abbrev pub or_start : Bool → ℕ → Option JsText → Option JsText
or_start starts c none = if starts then some [] else none
or_start starts c (some before) = some (c ∷ before)

-- The text before the last run of white space, if there is one.
unfoldable pub before_last_space : Bool → JsText → Option JsText
before_last_space in_run [] = none
before_last_space in_run (c ∷ text) =
    or_start (is_white c && not in_run) c (before_last_space (is_white c) text)

abbrev pub or_whole : JsText → Option JsText → JsText
or_whole text none = text
or_whole text (some before) = before

-- `truncateToByteLimit`, at white space.
unfoldable pub truncate_to_byte_limit : JsText → ByteLimit → JsText
unfolding slice_bytes before_last_space get_byte_size
truncate_to_byte_limit text limit =
    let truncated = slice_bytes (slice_end (get_byte_size text) limit) text in
    if fits (get_byte_size text) limit
    then text
    else or_whole truncated (before_last_space false truncated)

-- `CODE_SUGGESTIONS_REQUEST_BYTE_SIZE_LIMIT`
abbrev pub byte_size_limit : ℕ
byte_size_limit = 50000

abbrev pub with_content : JsText → AiContextItem → List AiContextItem
with_content [] item = []
with_content (c ∷ text) item = record item { content = some (c ∷ text) } ∷ []

-- The loop over the items, from a total size on.
unfoldable pub fit_items : ℕ → List AiContextItem → List AiContextItem
unfolding get_byte_size slice_bytes
fit_items total [] = []
fit_items total (item ∷ items) =
    let size = get_byte_size (or_empty item.content) in
    let rest = fit_items (total + size) items in
    if ltb byte_size_limit (total + size)
    then (if leb byte_size_limit total
        then []
        else with_content (slice_bytes (byte_size_limit - total) (or_empty item.content)) item)
    else item ∷ rest

-- `ByteSizeLimitPreProcessor.process`
unfoldable pub limit_byte_size : PreProcessor
unfolding truncate_to_byte_limit fit_items subtract
limit_byte_size items =
    let document_size = get_byte_size (items.prefix ++ items.suffix) in
    let limited =
      if ltb byte_size_limit document_size
      then record items {
        suffix = truncate_to_byte_limit items.suffix (subtract byte_size_limit document_size);
        ai_context_items = [];
      }
      else record items { ai_context_items = fit_items document_size items.ai_context_items } in
    some (limited, fine)
