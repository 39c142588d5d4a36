-- ===== src/Suggestions/Service/Sharing.antt =====
-- A request that the user invokes, which joins the suggestions of the cache and the new ones in one array.
use khulnasoft_lsp.Base.{
  ℕ, Bool, List, [], ◌∷◌, ◌++◌, Option, none, some, ◌≡◌, ◌≢◌, refl, number_key,
}
use khulnasoft_lsp.Base.JsMap
use khulnasoft_lsp.Base.JsMap.{get-set_self}
use khulnasoft_lsp.Tracking.Events.{TrackingEvent, loaded, shown}
use khulnasoft_lsp.Suggestions.Service.{
  invoked, DocContext, CompletionRequest, SuggestionOption, Service, Answers, tell, TriggerKind,
}
use khulnasoft_lsp.Suggestions.Service.Requests.{
  with_indices, use_and_track_cached_suggestions, array, tell_counts, unshift, add_cached,
  with_cached, options_in, get_suggestion_options, or_empty, Given,
}
use khulnasoft_lsp.Suggestions.Service.Life.{fate}
use khulnasoft_lsp.Suggestions.Service.Settling.{
  processed_options, given_by, handle_non_streaming_completion-Settles, Caches, Settles,
}

-- Two states that differ in what the tracker was told, at most.
abbrev SameButTold : Service → Service → Type 0
SameButTold s t = (t.arrays ≡ s.arrays) × (t.cache ≡ s.cache)

tell_counts_same :
    (count : ℕ) (cached os : List SuggestionOption) (s : Service)
    → SameButTold s (tell_counts count cached os s)
unfolding tell_counts tell
tell_counts_same count cached [] s = (refl, refl)
tell_counts_same count cached (o ∷ os) s = tell_counts_same count cached os _

-- What the cache finds, with the indices of the options renewed.
use_and_track_found :
    (b : Bool) (kind : Option TriggerKind) (os : List SuggestionOption) (s : Service)
    → or_empty ((use_and_track_cached_suggestions b kind os s).0) ≡ with_indices 0 os
unfolding use_and_track_cached_suggestions
use_and_track_found b kind [] s = refl
use_and_track_found b kind (o ∷ os) s = refl

-- A suggestion that stays loaded or shown is in the array that the cache holds for its request.
abbrev pub HoldsIf : Option TrackingEvent → ℕ → ℕ → Service → Type 0
HoldsIf (some loaded) key k t = JsMap.get t.cache key ≡ some k
HoldsIf (some shown) key k t = JsMap.get t.cache key ≡ some k
HoldsIf _ key k t = Unit

Caches-HoldsIf :
    (o : Option TrackingEvent) (key k : ℕ) (os : List SuggestionOption) (s t u : Service)
    → t.cache ≡ u.cache
    → Caches o key os k s u
    → HoldsIf o key k t
Caches-HoldsIf (some loaded) key k os s t u same c = rw same c
Caches-HoldsIf (some shown) key k os s t u same c = rw same c
Caches-HoldsIf none key k os s t u same c = tt
Caches-HoldsIf (some _) key k os s t u same c = tt

-- An array with the options `os`, which the cache holds if the new suggestions are in it.
abbrev pub GivesJoined : Option TrackingEvent → ℕ → List SuggestionOption → Given × Service → Type 0
GivesJoined o key os (given, t) =
    (k : ℕ) × (given ≡ array k) × (JsMap.get t.arrays k ≡ some os) × HoldsIf o key k t

add_cached-GivesJoined :
    (o : Option TrackingEvent) (request : CompletionRequest) (os : List SuggestionOption)
    (found : Option (List SuggestionOption)) (s : Service) (p : ℕ × Service)
    → Settles o request os s p
    → GivesJoined o request.key (or_empty found ++ given_by o os) (add_cached found p)
unfolding add_cached unshift
add_cached-GivesJoined o request os found s (k, t) (held, c, _, _) =
    let joined = unshift k (or_empty found) t in
    let same = tell_counts_same _ (or_empty found) (or_empty found) joined in
    (
      k,
      refl,
      rw (same.0, held) (get-set_self t.arrays k _),
      Caches-HoldsIf o request.key k os s _ t same.1 c,
    )

abbrev pub invoked_at : ℕ → DocContext → Bool → CompletionRequest
invoked_at key context is_inline = record {
  key = key;
  document_context = some context;
  is_inline = is_inline;
  trigger_kind = some invoked;
}

-- If the post-processors do not throw, a request that the user invoked gives one array: the suggestions that
-- the cache found, then those of the request itself. If the new suggestions stay loaded or shown, that array
-- is the one that the cache holds for the request from then on, so its entry has the cached suggestions again.
pub get_suggestion_options-GivesJoined :
    (a : Answers) (id key : ℕ) (context : DocContext) (is_inline : Bool) (s : Service)
    → ((os : List SuggestionOption) → a.process os ≢ none)
    → GivesJoined
        (fate a context)
        key
        (with_indices 0 a.cached ++ given_by (fate a context) (processed_options a id a.answer))
        (get_suggestion_options a id (invoked_at key context is_inline) s)
unfolding get_suggestion_options with_cached options_in
get_suggestion_options-GivesJoined a id key context is_inline s total =
    let request = invoked_at key context is_inline in
    let found = use_and_track_cached_suggestions a.client_tracks_shown (some invoked) a.cached s in
    rw⁻¹ (use_and_track_found a.client_tracks_shown (some invoked) a.cached s) (
      add_cached-GivesJoined (fate a context) request (processed_options a id a.answer) found.0
        found.1 _ (handle_non_streaming_completion-Settles a id request context found.1 total))
