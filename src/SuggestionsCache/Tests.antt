-- ===== src/SuggestionsCache/Tests.antt =====
-- The theorems on the line "a", cached with the suggestion "bc", when the user types "b".
use khulnasoft_lsp.Base.{
  ℕ, filter, units_key, [], ◌∷◌, ◌++◌, some, ◌≡◌, ◌↔◌, ◌≢◌, JsText, number_key,
}
use khulnasoft_lsp.Base.JsMap
use khulnasoft_lsp.Base.JsMap.{get-set_self}
use khulnasoft_lsp.SuggestionsCache.Store.{
  SuggestionCacheContext, Lru, add_to_suggestion_cache, get_from_cache,
}
use khulnasoft_lsp.SuggestionsCache.Store.Roundtrip.{
  is_non_empty, enabled_with, get_from_cache-add_to_suggestion_cache,
}
use khulnasoft_lsp.SuggestionsCache.{remaining, Entry}
use khulnasoft_lsp.SuggestionsCache.Typing.{remaining_iff}

abbrev line : JsText
line = 97 ∷ []

abbrev typed_line : JsText
typed_line = 97 ∷ 98 ∷ []

abbrev suggestion : JsText
suggestion = 98 ∷ 99 ∷ []

abbrev left : JsText
left = 99 ∷ []

abbrev entry : Entry
entry = record {
  current_line = line;
  suggestions = suggestion ∷ [];
  times_retrieved_by_position = [];
}

remaining_iff_example :
    (remaining typed_line line suggestion ≡ some left)
    ↔ ((typed : JsText) × (typed_line ≡ line ++ typed) × (suggestion ≡ typed ++ left) × (left ≢ []))
remaining_iff_example = remaining_iff typed_line line suggestion left

-- The entry once its suggestions have been given at position 2.
abbrev used : Entry
used = record entry { times_retrieved_by_position = (2, 1) ∷ [] }

-- A map as the cache.
abbrev map_lru : Lru (JsMap.JsMap JsText Entry)
map_lru = record { get = JsMap.get; set = JsMap.set; delete = JsMap.delete }

abbrev no_digits : ℕ → JsText
no_digits n = []

abbrev request : SuggestionCacheContext
request = record { uri = 117 ∷ []; line = []; character = 1; prefix = line; suffix = [] }

get_from_cache-add_to_suggestion_cache_example :
    (get_from_cache map_lru no_digits
      (enabled_with 1 1)
      request
      (add_to_suggestion_cache map_lru no_digits (enabled_with 1 1) request (suggestion ∷ []) [])).1
    ≡ some (filter is_non_empty (suggestion ∷ []))
get_from_cache-add_to_suggestion_cache_example =
    get_from_cache-add_to_suggestion_cache map_lru no_digits 1 1 request (suggestion ∷ []) []
      (λ d key entry. get-set_self d key entry)
