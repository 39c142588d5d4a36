-- ===== src/Suggestions/Items/Inserting.antt =====
-- What the document is when an item of an inline list is accepted.
use khulnasoft_lsp.Base.{
  ℕ, zero, suc, ◌+◌, ◌-◌, ◌≤◌, true, false, List, [], ◌∷◌, ◌++◌, take, drop, length, length-take,
  length-drop, some, JsText, starts_with, ◌≡◌, refl, ap, sym, ◌∙◌, arith,
}
use mathlib.Core.List.{append_assoc}
use khulnasoft_lsp.Suggestions.Filter.{should_reject_completion}
use khulnasoft_lsp.Suggestions.Items.{
  Position, Range, SelectedCompletionInfo, SuggestionOptionOrStream, text_option, stream_option,
  InlineCompletionItem, start_streaming, accept_suggestion, sanitize_range, remaining_text,
  inline_item, inline_completion_option_mapper,
}

drop-starts_with :
    (text start : JsText) → starts_with text start ≡ true → start ++ drop (length start) text ≡ text
unfolding starts_with
drop-starts_with text [] h = refl
drop-starts_with [] (v ∷ start) h = cc
drop-starts_with (u ∷ text) (v ∷ start) h =
    let same : u ≡ v = ground arith in
    rw same (ap (λ (rest : JsText). v ∷ rest) (drop-starts_with text start (ground arith)))

take-nil : (n : ℕ) → take {A = ℕ} n [] ≡ []
take-nil zero = refl
take-nil (suc n) = refl

take-add : (m n : ℕ) (text : JsText) → take m text ++ take n (drop m text) ≡ take (m + n) text
take-add zero n text = ap (λ (k : ℕ). take k text) (omega arith)
take-add (suc m) n [] = take-nil n ∙ sym (take-nil (suc m + n))
take-add (suc m) n (u ∷ text) =
    ap (λ (rest : JsText). u ∷ rest) (take-add m n text)
    ∙ ap (λ (k : ℕ). take k (u ∷ text)) (the_sum m n)
  where
    the_sum : (m n : ℕ) → suc (m + n) ≡ suc m + n
    the_sum m n = omega arith

-- `offset_at` tells where a position stands in the text of the document.
module _ (offset_at : Position → ℕ) (document : JsText) where
  -- The document with this text in place of what stands in a range
  abbrev pub edited : Range → JsText → JsText
  edited range text =
      take (offset_at range.start) document ++ text ++ drop (offset_at range.end) document

  -- The document after each item that is no stream: its text is put in place of what stands in its range.
  abbrev pub accepted : List InlineCompletionItem → List JsText
  accepted [] = []
  accepted (start_streaming id tracking_id ∷ items) = accepted items
  accepted (accept_suggestion text range tracking_id index ∷ items) =
      edited range text ∷ accepted items

  -- The document with the selected text and then each suggestion that is no stream, in place of what stands in the selected range
  abbrev pub continued : Range → JsText → List SuggestionOptionOrStream → List JsText
  continued range selected [] = []
  continued range selected (stream_option id tracking_id ∷ options) =
      continued range selected options
  continued range selected (text_option o ∷ options) =
      edited range (selected ++ o.text) ∷ continued range selected options

  -- A text that is put between two parts, after what stands there already
  joined :
      (range : Range) (current rest text selected : JsText)
      → take (offset_at range.start) document ++ current ≡ take (offset_at range.end) document
      → current ++ rest ≡ selected
      → edited (record { start = range.end; end = range.end }) (rest ++ text)
        ≡ edited range (selected ++ text)
  joined range current rest text selected p q =
      let before = take (offset_at range.start) document in
      let after = drop (offset_at range.end) document in rw (← p, ← q) (simp append_assoc refl)

  -- If the client's selection ends at the cursor and stands on one line of the document, whose `getText` gives what stands in a range,
  -- and the completion is not rejected since the selected text does not continue that of the document: whichever item is accepted, the
  -- document then has the selected text, followed by the suggestion, in place of what stood in the selected range.
  pub accepted-inline_completion_option_mapper :
      (get_text : Range → JsText) (info : SelectedCompletionInfo)
      (options : List SuggestionOptionOrStream)
      → let range = sanitize_range info.range in
        get_text range
          ≡ take
              (offset_at range.end - offset_at range.start)
              (drop (offset_at range.start) document)
        → offset_at range.end
          ≡ offset_at range.start + (range.end.character - range.start.character)
        → offset_at range.end ≤ length document
        → should_reject_completion (some info.text) (some (get_text range)) ≡ false
        → accepted (inline_completion_option_mapper range.end (some info) options)
          ≡ continued range info.text options
  unfolding inline_completion_option_mapper inline_item
  accepted-inline_completion_option_mapper get_text info [] g o l h = refl
  accepted-inline_completion_option_mapper get_text info (stream_option i t ∷ options) g o l h =
      accepted-inline_completion_option_mapper get_text info options g o l h
  accepted-inline_completion_option_mapper get_text info (text_option option ∷ options) g o l h =
      let range = sanitize_range info.range in
      let n = range.end.character - range.start.character in
      let current = get_text range in
      let read : current ≡ take n (drop (offset_at range.start) document) =
        g ∙ ap (λ (k : ℕ). take k (drop (offset_at range.start) document)) (omega (arith, o)) in
      let size : length current ≡ n =
        ap length read
        ∙ omega (
          arith,
          o,
          l,
          length-take n (drop (offset_at range.start) document),
          length-drop (offset_at range.start) document,
        ) in
      let starts : starts_with info.text current ≡ true =
        unfold should_reject_completion in ground (arith, h) in
      let whole : current ++ remaining_text info ≡ info.text =
        unfold remaining_text in rw (← size) (drop-starts_with info.text current starts) in
      let before : take (offset_at range.start) document ++ current
          ≡ take (offset_at range.end) document =
        rw (read, o) (take-add (offset_at range.start) n document) in
      rw (accepted-inline_completion_option_mapper get_text info options g o l h) (
        ap (λ (t : JsText). t ∷ continued range info.text options)
          (joined range current (remaining_text info) option.text info.text before whole))
