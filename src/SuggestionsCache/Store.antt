-- ===== src/SuggestionsCache/Store.antt =====
-- The key of an entry, and the cache of lru-cache, which is a parameter: `get`, `set` and `delete` on a type of caches.
pub mod Roundtrip
use khulnasoft_lsp.Base.{
  ℕ, zero, suc, ◌-◌, Bool, true, false, List, [], ◌∷◌, ◌++◌, length, take, drop, Option, none, some,
  eqb, filter, if◌then◌else◌, JsText, is_white, has_text,
}
use khulnasoft_lsp.SuggestionsCache.{Entry, get_cached_suggestions}

-- `text.split('\n')`, as the first line and the others.
unfoldable pub split_lines : JsText → JsText × List JsText
split_lines [] = ([], [])
split_lines (u ∷ text) =
    let (line, lines) = split_lines text in
    if eqb u 10 then ([], line ∷ lines) else (u ∷ line, lines)

-- `lines.pop()`: the last line, and those before it.
unfoldable pub pop : JsText → List JsText → JsText × List JsText
pop line [] = (line, [])
pop line (next ∷ lines) = let (last, before) = pop next lines in (last, line ∷ before)

abbrev pub current_line : JsText → JsText
current_line prefix = let (line, lines) = split_lines prefix in (pop line lines).0

unfoldable pub indentation : JsText → ℕ
indentation [] = 0
indentation (u ∷ line) = if is_white u then suc (indentation line) else 0

-- `lines.slice(-n)`: `slice(-0)` takes all lines.
unfoldable pub slice_last : ℕ → List JsText → List JsText
slice_last zero lines = lines
slice_last (suc n) lines = drop (length lines - suc n) lines

-- `texts.join(separator)`
unfoldable pub join : ℕ → List JsText → JsText
join separator [] = []
join separator (text ∷ []) = text
join separator (text ∷ next ∷ texts) = text ++ separator ∷ join separator (next ∷ texts)

-- `Required<ISuggestionsCacheOptions>`, of which lru-cache takes the size and the time to live.
pub record CacheConfig : Type 0 where
  pub enabled : Bool
  pub prefix_lines : ℕ
  pub suffix_lines : ℕ

-- `SuggestionCacheContext`; the position has a line, as text, and a character.
pub record SuggestionCacheContext : Type 0 where
  pub uri : JsText
  pub line : JsText
  pub character : ℕ
  pub prefix : JsText
  pub suffix : JsText

-- `#getSuggestionKey`, with the decimal text of a number as a parameter.
unfoldable pub get_suggestion_key : (ℕ → JsText) → CacheConfig → SuggestionCacheContext → JsText
unfolding split_lines pop indentation slice_last join filter
get_suggestion_key text_of config ctx =
    let (first, others) = split_lines ctx.prefix in
    let (last, before) = pop first others in
    let (suffix_first, suffix_others) = split_lines ctx.suffix in
    join 58 (
      ctx.uri
      ∷ ctx.line
      ∷ join 10 (slice_last config.prefix_lines (filter has_text before))
      ∷ join 10 (take config.suffix_lines (filter has_text (suffix_first ∷ suffix_others)))
      ∷ text_of (indentation last)
      ∷ [])

-- What the cache uses of lru-cache.
pub record Lru (C : Type 0) : Type 0 where
  pub get : C → JsText → Option Entry
  pub set : C → JsText → Entry → C
  pub delete : C → JsText → C

abbrev pub new_entry : SuggestionCacheContext → List JsText → Entry
new_entry request suggestions = record {
  current_line = current_line request.prefix;
  suggestions = suggestions;
  times_retrieved_by_position = [];
}

module _ {C : Type 0} (lru : Lru C) (text_of : ℕ → JsText) (config : CacheConfig) where
  -- `addToSuggestionCache`
  unfoldable pub add_to_suggestion_cache : SuggestionCacheContext → List JsText → C → C
  unfolding get_suggestion_key
  add_to_suggestion_cache request suggestions c =
      if config.enabled
      then lru.set c (get_suggestion_key text_of config request) (new_entry request suggestions)
      else c

  -- The entry that `getCachedSuggestions` leaves, which it changes in place, or takes out.
  abbrev pub leave : JsText → Option Entry × Option (List JsText) → C → C × Option (List JsText)
  leave key (none, given) c = (lru.delete c key, given)
  leave key (some entry, given) c = (lru.set c key entry, given)

  abbrev pub look_up : JsText → Option Entry → SuggestionCacheContext → C → C × Option (List JsText)
  look_up key none request c = (c, none)
  look_up key (some entry) request c =
      leave key
        (get_cached_suggestions request.character (current_line request.prefix) (some entry)) c

  -- `getCachedSuggestions`, with the cache it leaves.
  unfoldable pub get_from_cache : SuggestionCacheContext → C → C × Option (List JsText)
  unfolding get_suggestion_key get_cached_suggestions
  get_from_cache request c =
      let key = get_suggestion_key text_of config request in
      if config.enabled then look_up key (lru.get c key) request c else (c, none)
