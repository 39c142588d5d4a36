-- ===== src/Suggestions/Filter.antt =====
-- `src/common/suggestion/suggestion_filter.ts`.
pub mod LineEnd
use khulnasoft_lsp.Base.{
  ℕ, Bool, true, false, not, List, [], ◌∷◌, Option, none, some, ◌&&◌, ◌||◌, eqb, if◌then◌else◌,
  JsText, is_white, starts_with,
}

-- A line break starts here: `\r?\n`.
abbrev starts_break : ℕ → JsText → Bool
starts_break u [] = eqb u 10
starts_break u (v ∷ t) = eqb u 10 || eqb u 13 && eqb v 10

-- `suffix` up to its first line break, a line feed with or without a carriage return.
unfoldable pub line_suffix : JsText → JsText
line_suffix [] = []
line_suffix (u ∷ t) = if starts_break u t then [] else u ∷ line_suffix t

-- `)`, `}`, `]`, `"`, `'` and the backtick.
unfoldable pub is_closer : ℕ → Bool
is_closer u = eqb u 41 || eqb u 125 || eqb u 93 || eqb u 34 || eqb u 39 || eqb u 96

-- `:`, `{`, `;` and `,`.
unfoldable pub is_mark : ℕ → Bool
is_mark u = eqb u 58 || eqb u 123 || eqb u 59 || eqb u 44

-- What a greedy `*` leaves.
unfoldable pub skip : (ℕ → Bool) → JsText → JsText
skip p [] = []
skip p (u ∷ t) = if p u then skip p t else u ∷ t

-- What a greedy `?` leaves.
unfoldable pub skip_one : (ℕ → Bool) → JsText → JsText
skip_one p [] = []
skip_one p (u ∷ t) = if p u then t else u ∷ t

abbrev is_end : JsText → Bool
is_end [] = true
is_end (u ∷ t) = false

-- `/^\s*[)}\]"'`]*\s*[:{;,]?\s*$/`. No character is in two of the classes, so nothing has to be tried again.
unfoldable pub allowed_past_cursor : JsText → Bool
unfolding skip skip_one is_closer is_mark
allowed_past_cursor t =
    is_end (skip is_white (skip_one is_mark (skip is_white (skip is_closer (skip is_white t)))))

unfoldable pub is_at_or_near_end_of_line : JsText → Bool
unfolding line_suffix allowed_past_cursor
is_at_or_near_end_of_line suffix = allowed_past_cursor (line_suffix suffix)

-- `shouldRejectCompletionWithSelectedCompletionTextMismatch`: the text that is selected in the client, and the text
-- of the document in its range, if there are such.
unfoldable pub should_reject_completion : Option JsText → Option JsText → Bool
unfolding starts_with
should_reject_completion (some selected_text) (some current_text) =
    not (starts_with selected_text current_text)
should_reject_completion _ _ = false
