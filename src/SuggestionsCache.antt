-- ===== src/SuggestionsCache.antt =====
-- `src/common/suggestion/suggestions_cache.ts`: what `getCachedSuggestions` makes of the suggestions of an
-- entry when the user has typed on, and how often an entry may be used; the cache around it is in Store.
pub mod Typing
pub mod Store
mod Tests
use khulnasoft_lsp.Base.{
  ℕ, ◌+◌, ◌-◌, Bool, true, false, not, List, [], ◌∷◌, ◌++◌, length, take, drop, Option, none, some,
  ◌&&◌, ◌||◌, ltb, leb, eqb, if◌then◌else◌, JsText, number_key,
}
use khulnasoft_lsp.Base.JsMap
use khulnasoft_lsp.Base.JsMap.{JsMap}

-- `===` on strings.
unfoldable pub same_text : JsText → JsText → Bool
same_text [] [] = true
same_text [] (v ∷ t) = false
same_text (u ∷ s) [] = false
same_text (u ∷ s) (v ∷ t) = eqb u v && same_text s t

-- The text of the suggestion that is left, if it still fits: `null` is `none`.
unfoldable pub remaining : JsText → JsText → JsText → Option JsText
unfolding same_text
remaining current_line cached_line text =
    let diff = length current_line - length cached_line in
    if ltb (length current_line) (length cached_line)
    then none
    else if leb (length text) diff
    then none
    else if not (same_text (take (length cached_line) current_line) cached_line)
        || not (same_text (take diff text) (drop (length cached_line) current_line))
    then none
    else some (drop diff text)

abbrev keep : Option JsText → List JsText → List JsText
keep none rest = rest
keep (some text) rest = text ∷ rest

-- `candidate.suggestions.map(…).filter(…)`, of the texts.
unfoldable pub options : JsText → JsText → List JsText → List JsText
unfolding remaining
options current_line cached_line [] = []
options current_line cached_line (text ∷ suggestions) =
    keep (remaining current_line cached_line text) (options current_line cached_line suggestions)

-- `SuggestionCacheEntry`
pub record Entry : Type 0 where
  pub current_line : JsText
  pub suggestions : List JsText
  pub times_retrieved_by_position : JsMap ℕ ℕ

abbrev pub or_zero : Option ℕ → ℕ
or_zero none = 0
or_zero (some n) = n

-- `#increaseCacheEntryRetrievedCount`
unfoldable pub increase_retrieved_count : ℕ → Entry → Entry
increase_retrieved_count character entry = record entry {
  times_retrieved_by_position =
      JsMap.set entry.times_retrieved_by_position character
        (or_zero (JsMap.get entry.times_retrieved_by_position character) + 1);
}

-- `getCachedSuggestions`, from the entry that the cache has for the key on, with the entry that it leaves there.
unfoldable pub get_cached_suggestions :
    ℕ → JsText → Option Entry → Option Entry × Option (List JsText)
unfolding increase_retrieved_count options
get_cached_suggestions character current_line none = (none, none)
get_cached_suggestions character current_line (some candidate) =
    if ltb 0 (or_zero (JsMap.get candidate.times_retrieved_by_position character))
    then (none, none)
    else (
      some (increase_retrieved_count character candidate),
      some (options current_line candidate.current_line candidate.suggestions),
    )
