-- ===== src/SuggestionsCache/Typing.antt =====
-- Which suggestions of an entry are offered.
use khulnasoft_lsp.Base.{
  ℕ, ◌+◌, ◌-◌, ◌<◌, ◌≤◌, true, List, [], ◌∷◌, ◌++◌, length, take, drop, none, some, ltb, leb,
  if◌then◌else◌, JsText, number_key, ◌≡◌, ◌↔◌, ◌≢◌, refl, arith, ap, eqb_iff, take-append-drop,
  length-append, length-drop, sym, Bool-cases, inl, inr,
}
use khulnasoft_lsp.Base.JsMap
use khulnasoft_lsp.Base.JsMap.{JsMap, get-set, get-set_self}
use khulnasoft_lsp.SuggestionsCache.{
  same_text, remaining, Entry, or_zero, increase_retrieved_count, get_cached_suggestions,
}

same_text-≡ : (s t : JsText) → same_text s t ≡ true → s ≡ t
unfolding same_text
same_text-≡ [] [] h = refl
same_text-≡ [] (v ∷ t) h = cc
same_text-≡ (u ∷ s) [] h = cc
same_text-≡ (u ∷ s) (v ∷ t) h = ground (arith, eqb_iff u v, same_text-≡ s t)

same_text_self : (s : JsText) → same_text s s ≡ true
unfolding same_text
same_text_self [] = refl
same_text_self (u ∷ s) = ground (arith, eqb_iff u u, same_text_self s)

take-append : (s t : JsText) → take (length s) (s ++ t) ≡ s
take-append [] t = refl
take-append (u ∷ s) t = ap (◌∷◌ u) (take-append s t)

drop-append : (s t : JsText) → drop (length s) (s ++ t) ≡ t
drop-append [] t = refl
drop-append (u ∷ s) t = drop-append s t

abbrev pub typed_on : JsText → JsText → JsText
typed_on current cached = drop (length cached) current

-- What the tests of `remaining` say.
remaining-facts :
    (current cached text rest : JsText)
    → remaining current cached text ≡ some rest
    → let diff = length current - length cached in
      (diff < length text)
      × ((same_text (take (length cached) current) cached ≡ true)
          × ((same_text (take diff text) (drop (length cached) current) ≡ true)
              × (drop diff text ≡ rest)))
unfolding remaining
remaining-facts current cached text rest h =
    (ground arith, (ground arith, (ground arith, ground arith)))

drop-nonempty : (n : ℕ) (t : JsText) → n < length t → drop n t ≢ []
drop-nonempty n t h e = omega (arith, length-drop n t, ap length e)

joined : (a p d c : JsText) → a ≡ p → a ++ d ≡ c → c ≡ p ++ d
joined a p d c e w = rw (← e) (sym w)

-- A suggestion that is offered is what remains of it after what the user has typed since it was
-- cached, which its text begins with; and something remains.
pub remaining_sound :
    (current cached text rest : JsText)
    → remaining current cached text ≡ some rest
    → (current ≡ cached ++ typed_on current cached)
      × ((text ≡ typed_on current cached ++ rest) × (rest ≢ []))
remaining_sound current cached text rest h =
    let (short, (begins, (agrees, cut))) = remaining-facts current cached text rest h in
    let diff = length current - length cached in
    let line : take (length cached) current ≡ cached = same_text-≡ _ cached begins in
    let typed : take diff text ≡ typed_on current cached =
      same_text-≡ _ (typed_on current cached) agrees in
    (
      joined (take (length cached) current) cached (typed_on current cached) current line
          (take-append-drop (length cached) current),
      (
        rw (← cut) (
            joined (take diff text) (typed_on current cached) (drop diff text) text typed
              (take-append-drop diff text)),
        rw (← cut) (drop-nonempty diff text short),
      ),
    )

-- Every suggestion that begins with what the user has typed since, and goes on, is offered.
pub remaining_complete :
    (cached typed rest : JsText)
    → rest ≢ []
    → remaining (cached ++ typed) cached (typed ++ rest) ≡ some rest
unfolding remaining
remaining_complete cached typed rest h =
    let diff : length (cached ++ typed) - length cached ≡ length typed =
      omega (arith, length-append cached typed) in
    rw
      (
        diff,
        take-append cached typed,
        drop-append cached typed,
        take-append typed rest,
        drop-append typed rest,
        same_text_self cached,
        same_text_self typed,
      )
      (fits (length (cached ++ typed)) (length cached) (length (typed ++ rest)) (length typed) rest
        (omega (arith, length-append cached typed)) (longer rest h))
  where
    fits :
        (a b c d : ℕ) (r : JsText)
        → b ≤ a
        → d < c
        → (if ltb a b then none else if leb c d then none else some r) ≡ some r
    fits a b c d r p q = ground arith

    longer : (rest : JsText) → rest ≢ [] → length typed < length (typed ++ rest)
    longer [] q = absurd (q refl)
    longer (u ∷ rest) q = omega (arith, length-append typed (u ∷ rest))

-- From one position the suggestions of an entry are given once: the second time they are not, and the entry is
-- taken out.
pub get_cached_once :
    (character : ℕ) (line line' : JsText) (entry after : Entry) (found : List JsText)
    → get_cached_suggestions character line (some entry) ≡ (some after, some found)
    → get_cached_suggestions character line' (some after) ≡ (none, none)
unfolding get_cached_suggestions increase_retrieved_count
get_cached_once character line line' entry after found h =
    elim (Bool-cases (ltb 0 (or_zero (JsMap.get entry.times_retrieved_by_position character)))) [
      | inl q ↦ cc (rw q at h)
      | inr q ↦
          let same : increase_retrieved_count character entry ≡ after = cc (rw q at h) in
          again after (
            ap (λ (e : Entry). ltb 0 (or_zero (JsMap.get e.times_retrieved_by_position character)))
              same)
    ]
  where
    again :
        (after : Entry)
        → ltb 0 (
            or_zero (
              JsMap.get
                (increase_retrieved_count character entry).times_retrieved_by_position
                character))
          ≡ ltb 0 (or_zero (JsMap.get after.times_retrieved_by_position character))
        → get_cached_suggestions character line' (some after) ≡ (none, none)
    again after e =
        let counted : ltb 0 (or_zero (JsMap.get after.times_retrieved_by_position character))
            ≡ true =
          rw
            (
              ← e,
              get-set_self entry.times_retrieved_by_position character
                  (or_zero (JsMap.get entry.times_retrieved_by_position character) + 1),
            )
            (ground arith) in
        rw counted refl

-- A suggestion is offered, as `rest`, exactly if the line goes on from the cached line with a text that the suggestion
-- begins with, and `rest` is what remains of the suggestion after that text, and something remains.
pub remaining_iff :
    (current cached text rest : JsText)
    → (remaining current cached text ≡ some rest)
      ↔ ((typed : JsText) × (current ≡ cached ++ typed) × (text ≡ typed ++ rest) × (rest ≢ []))
remaining_iff current cached text rest = (
  λ h.
      let (line, (fits, some_left)) = remaining_sound current cached text rest h in
      (typed_on current cached, line, fits, some_left),
  λ (typed, line, fits, some_left).
      rw (line, fits) (remaining_complete cached typed rest some_left),
)
