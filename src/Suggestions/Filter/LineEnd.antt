-- ===== src/Suggestions/Filter/LineEnd.antt =====
-- The test at the end of the line against the shape that its regular expression describes.
use khulnasoft_lsp.Base.{
  ℕ, Bool, true, false, [], ◌∷◌, ◌++◌, if◌then◌else◌, JsText, is_white, ◌≡◌, refl, arith, All, ap,
  ◌↔◌, ◌∙◌, Bool-cases, inl, inr,
}
use khulnasoft_lsp.Suggestions.Filter.{
  line_suffix, is_closer, is_mark, skip, skip_one, is_end, allowed_past_cursor,
  is_at_or_near_end_of_line,
}

abbrev pub AllOf : (ℕ → Bool) → JsText → Type 0
AllOf p = All (λ (u : ℕ). p u ≡ true)

-- A mark or nothing.
abbrev pub IsMarkOrNone : JsText → Type 0
IsMarkOrNone [] = Unit
IsMarkOrNone (u ∷ []) = is_mark u ≡ true
IsMarkOrNone (u ∷ v ∷ t) = ⊥

-- White space, closing characters, white space, at most one mark, white space.
pub record IsLineEnd (line : JsText) : Type 0 where
  pub before : JsText
  pub closers : JsText
  pub between : JsText
  pub mark : JsText
  pub after : JsText
  pub before_white : AllOf is_white before
  pub closers_close : AllOf is_closer closers
  pub between_white : AllOf is_white between
  pub mark_alone : IsMarkOrNone mark
  pub after_white : AllOf is_white after
  pub whole : line ≡ before ++ (closers ++ (between ++ (mark ++ after)))

-- What `skip` has passed over.
passed : (ℕ → Bool) → JsText → JsText
passed p [] = []
passed p (u ∷ t) = if p u then u ∷ passed p t else []

passed-AllOf : (p : ℕ → Bool) (t : JsText) → AllOf p (passed p t)
unfolding passed
passed-AllOf p [] = tt
passed-AllOf p (u ∷ t) = elim (Bool-cases (p u)) [
  | inl q ↦ rw q (q, passed-AllOf p t)
  | inr q ↦ rw q tt
]

passed-append-skip : (p : ℕ → Bool) (t : JsText) → t ≡ passed p t ++ skip p t
unfolding passed skip
passed-append-skip p [] = refl
passed-append-skip p (u ∷ t) = ground (arith, passed-append-skip p t)

-- A passed prefix makes no difference.
skip-append : (p : ℕ → Bool) (s t : JsText) → AllOf p s → skip p (s ++ t) ≡ skip p t
unfolding skip
skip-append p [] t h = refl
skip-append p (u ∷ s) t h = rw h.0 (skip-append p s t h.1)

skip-all : (p : ℕ → Bool) (s : JsText) → AllOf p s → skip p s ≡ []
unfolding skip
skip-all p [] h = refl
skip-all p (u ∷ s) h = rw h.0 (skip-all p s h.1)

-- No character is in two classes.
closer_not_white : (u : ℕ) → is_closer u ≡ true → is_white u ≡ false
unfolding is_closer is_white
closer_not_white u h = ground arith

mark_not_white : (u : ℕ) → is_mark u ≡ true → is_white u ≡ false
unfolding is_mark is_white
mark_not_white u h = ground arith

mark_not_closer : (u : ℕ) → is_mark u ≡ true → is_closer u ≡ false
unfolding is_mark is_closer
mark_not_closer u h = ground arith

white_not_closer : (u : ℕ) → is_white u ≡ true → is_closer u ≡ false
white_not_closer u h = elim (Bool-cases (is_closer u)) [
  | inl c ↦ cc (closer_not_white u c, h)
  | inr n ↦ n
]

white_not_mark : (u : ℕ) → is_white u ≡ true → is_mark u ≡ false
white_not_mark u h = elim (Bool-cases (is_mark u)) [
  | inl c ↦ cc (mark_not_white u c, h)
  | inr n ↦ n
]

-- What follows the closing characters: a mark or none, and white space.
abbrev rest_of : JsText → JsText → JsText
rest_of mark after = mark ++ after

-- The last two parts of the expression accept what they describe.
abbrev ends : JsText → Bool
ends t = is_end (skip is_white (skip_one is_mark t))

white-kept : (u : ℕ) (t : JsText) → is_white u ≡ false → skip is_white (u ∷ t) ≡ u ∷ t
unfolding skip
white-kept u t h = rw h refl

closer-kept : (u : ℕ) (t : JsText) → is_closer u ≡ false → skip is_closer (u ∷ t) ≡ u ∷ t
unfolding skip
closer-kept u t h = rw h refl

mark-ends :
    (u : ℕ) (after : JsText) → is_mark u ≡ true → AllOf is_white after → ends (u ∷ after) ≡ true
unfolding skip_one
mark-ends u after m w = rw (m, skip-all is_white after w) refl

-- After the closing characters.
rest-ends :
    (mark after : JsText)
    → IsMarkOrNone mark
    → AllOf is_white after
    → ends (skip is_white (mark ++ after)) ≡ true
unfolding skip_one skip
rest-ends [] after m w = rw (skip-all is_white after w) refl
rest-ends (u ∷ []) after m w = rw (white-kept u after (mark_not_white u m)) (mark-ends u after m w)
rest-ends (u ∷ v ∷ t) after m w = absurd m

-- Where there are no closing characters.
rest-ends_skipped :
    (mark after : JsText)
    → IsMarkOrNone mark
    → AllOf is_white after
    → ends (skip is_white (skip is_closer (skip is_white (mark ++ after)))) ≡ true
unfolding skip_one skip
rest-ends_skipped [] after m w = rw (skip-all is_white after w) refl
rest-ends_skipped (u ∷ []) after m w =
    rw
      (
        white-kept u after (mark_not_white u m),
        closer-kept u after (mark_not_closer u m),
        white-kept u after (mark_not_white u m),
      )
      (mark-ends u after m w)
rest-ends_skipped (u ∷ v ∷ t) after m w = absurd m

-- No closing character is passed where a mark or white space stands.
rest-kept :
    (between mark after : JsText)
    → AllOf is_white between
    → IsMarkOrNone mark
    → AllOf is_white after
    → skip is_closer (between ++ (mark ++ after)) ≡ between ++ (mark ++ after)
unfolding skip
rest-kept (v ∷ c) mark after b m w = closer-kept v (c ++ (mark ++ after)) (white_not_closer v b.0)
rest-kept [] (u ∷ []) after b m w = closer-kept u after (mark_not_closer u m)
rest-kept [] (u ∷ v ∷ t) after b m w = absurd m
rest-kept [] [] [] b m w = refl
rest-kept [] [] (v ∷ t) b m w = closer-kept v t (white_not_closer v w.0)

closers-end :
    (closers between mark after : JsText)
    → AllOf is_closer closers
    → AllOf is_white between
    → IsMarkOrNone mark
    → AllOf is_white after
    → ends
        (skip is_white (skip is_closer (skip is_white (closers ++ (between ++ (mark ++ after))))))
      ≡ true
closers-end [] between mark after c b m w =
    rw (skip-append is_white between (mark ++ after) b) (rest-ends_skipped mark after m w)
closers-end (u ∷ closers) between mark after c b m w =
    let rest = between ++ (mark ++ after) in
    rw
      (
        white-kept u (closers ++ rest) (closer_not_white u c.0),
        skip-append is_closer (u ∷ closers) rest c,
        rest-kept between mark after b m w,
        skip-append is_white between (mark ++ after) b,
      )
      (rest-ends mark after m w)

allowed_of_shape : (line : JsText) → IsLineEnd line → allowed_past_cursor line ≡ true
unfolding allowed_past_cursor
allowed_of_shape line e =
    rw
      (
        e.whole,
        skip-append is_white e.before (e.closers ++ (e.between ++ (e.mark ++ e.after)))
            e.before_white,
      )
      (closers-end e.closers e.between e.mark e.after e.closers_close e.between_white e.mark_alone
        e.after_white)

-- The mark that `skip_one` passes over, if there is one.
marked : JsText → JsText
marked [] = []
marked (u ∷ t) = if is_mark u then u ∷ [] else []

marked-IsMarkOrNone : (t : JsText) → IsMarkOrNone (marked t)
unfolding marked
marked-IsMarkOrNone [] = tt
marked-IsMarkOrNone (u ∷ t) = elim (Bool-cases (is_mark u)) [ inl q ↦ rw q q | inr q ↦ rw q tt ]

marked-append-skip_one : (t : JsText) → t ≡ marked t ++ skip_one is_mark t
unfolding marked skip_one
marked-append-skip_one [] = refl
marked-append-skip_one (u ∷ t) = ground arith

ended : (t : JsText) → is_end t ≡ true → t ≡ []
ended [] h = refl
ended (u ∷ t) h = cc

all_passed : (p : ℕ → Bool) (t : JsText) → skip p t ≡ [] → AllOf p t
unfolding skip
all_passed p [] h = tt
all_passed p (u ∷ t) h = elim (Bool-cases (p u)) [
  | inl q ↦ (q, all_passed p t (rw q at h))
  | inr q ↦ cc (rw q at h)
]

shape_of_allowed : (line : JsText) → allowed_past_cursor line ≡ true → IsLineEnd line
unfolding allowed_past_cursor
shape_of_allowed line h =
    let t₁ = skip is_white line in
    let t₂ = skip is_closer t₁ in
    let t₃ = skip is_white t₂ in
    let t₄ = skip_one is_mark t₃ in
    record {
      before = passed is_white line;
      closers = passed is_closer t₁;
      between = passed is_white t₂;
      mark = marked t₃;
      after = t₄;
      before_white = passed-AllOf is_white line;
      closers_close = passed-AllOf is_closer t₁;
      between_white = passed-AllOf is_white t₂;
      mark_alone = marked-IsMarkOrNone t₃;
      after_white = all_passed is_white t₄ (ended (skip is_white t₄) h);
      whole =
          passed-append-skip is_white line
          ∙ ap (λ (t : JsText). passed is_white line ++ t)
              (passed-append-skip is_closer t₁
                ∙ ap (λ (t : JsText). passed is_closer t₁ ++ t)
                    (passed-append-skip is_white t₂
                      ∙ ap (λ (t : JsText). passed is_white t₂ ++ t) (marked-append-skip_one t₃)));
    }

-- The test holds exactly if the rest of the line is white space, closing characters, white space, at
-- most one mark, and white space.
pub is_at_or_near_end_of_line_iff :
    (suffix : JsText) → (is_at_or_near_end_of_line suffix ≡ true) ↔ IsLineEnd (line_suffix suffix)
unfolding is_at_or_near_end_of_line
is_at_or_near_end_of_line_iff suffix =
    (shape_of_allowed (line_suffix suffix), allowed_of_shape (line_suffix suffix))
