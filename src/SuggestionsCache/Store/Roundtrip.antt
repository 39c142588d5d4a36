-- ===== src/SuggestionsCache/Store/Roundtrip.antt =====
-- What is added is found again.
use khulnasoft_lsp.Base.{
  ℕ, ◌-◌, Bool, true, false, List, [], ◌∷◌, length, Option, none, some, ltb, leb, filter,
  if◌then◌else◌, JsText, number_key, ◌≡◌, refl, ap, arith,
}
use khulnasoft_lsp.Base.JsMap
use mathlib.Core.List.{append-nil}
use khulnasoft_lsp.SuggestionsCache.{remaining, options, Entry, get_cached_suggestions}
use khulnasoft_lsp.SuggestionsCache.Typing.{remaining_complete}
use khulnasoft_lsp.SuggestionsCache.Store.{
  current_line, CacheConfig, SuggestionCacheContext, get_suggestion_key, Lru, new_entry,
  add_to_suggestion_cache, get_from_cache,
}

abbrev pub is_non_empty : JsText → Bool
is_non_empty [] = false
is_non_empty (u ∷ text) = true

no_room :
    (n : ℕ) (o : Option JsText)
    → (if ltb n n then none else if leb 0 (n - n) then none else o) ≡ none
no_room n o = ground arith

options_same :
    (line : JsText) (suggestions : List JsText)
    → options line line suggestions ≡ filter is_non_empty suggestions
unfolding options filter remaining
options_same line [] = refl
options_same line ([] ∷ suggestions) = rw (nothing_left, options_same line suggestions)
  where
    nothing_left : remaining line line [] ≡ none
    nothing_left = no_room (length line) _
options_same line ((u ∷ text) ∷ suggestions) = rw (whole_left, options_same line suggestions)
  where
    whole_left : remaining line line (u ∷ text) ≡ some (u ∷ text)
    whole_left = rw (append-nil line) at (remaining_complete line [] (u ∷ text) (λ h. cc))

abbrev pub enabled_with : ℕ → ℕ → CacheConfig
enabled_with prefix_lines suffix_lines = record {
  enabled = true;
  prefix_lines = prefix_lines;
  suffix_lines = suffix_lines;
}

-- With a cache that gives what was set last for a key, and that is enabled: the suggestions that were added for a
-- document and position are given for the same document and position, but for empty ones.
pub get_from_cache-add_to_suggestion_cache :
    {C : Type 0} (lru : Lru C) (text_of : ℕ → JsText) (p s : ℕ) (request : SuggestionCacheContext)
    (suggestions : List JsText) (c : C)
    → ((d : C) (key : JsText) (entry : Entry) → lru.get (lru.set d key entry) key ≡ some entry)
    → (get_from_cache lru text_of
        (enabled_with p s)
        request
        (add_to_suggestion_cache lru text_of (enabled_with p s) request suggestions c)).1
      ≡ some (filter is_non_empty suggestions)
unfolding get_from_cache add_to_suggestion_cache get_cached_suggestions JsMap.get
get_from_cache-add_to_suggestion_cache lru text_of p s request suggestions c law =
    let key = get_suggestion_key text_of (enabled_with p s) request in
    rw (law c key (new_entry request suggestions))
      (ap some (options_same (current_line request.prefix) suggestions))
