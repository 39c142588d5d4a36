-- ===== src/Repositories/Ignoring/Deciding.antt =====
-- Which file of patterns decides.
use khulnasoft_lsp.Base.{
  Bool, true, false, List, [], ◌∷◌, ◌++◌, Option, none, some, if◌then◌else◌, ◌&&◌, All, JsText,
  text_of, units_key, ◌===◌, Option-cases, ===_iff, if_cases, inl, inr, ◌≡◌, ◌≢◌, ◌⊎◌, refl, ap,
  sym, ◌∙◌, arith,
}
use khulnasoft_lsp.Base.JsMap
use khulnasoft_lsp.Repositories.Matcher.{find_matching_directories}
use khulnasoft_lsp.Repositories.Ignoring.{
  TestResult, Paths, GitIgnoreManager, ignored_by_exclude, next_status, ignored_by, is_ignored,
}

-- A test never says both.
abbrev pub IsDefinite : Paths → Type 0
IsDefinite p =
    (content path : JsText)
    → ((p.test content path).ignored && (p.test content path).unignored) ≡ false

abbrev opinion_of : TestResult → Option Bool
opinion_of r = if r.ignored then some true else if r.unignored then some false else none

abbrev or_status : Bool → Option Bool → Bool
or_status status none = status
or_status status (some b) = b

module _ (p : Paths) (m : GitIgnoreManager) (file : JsText) where
  -- What the patterns of a directory say of the file
  abbrev pub opinion : JsText → Option Bool
  opinion dir = elim (JsMap.get m.ignore_map dir) [
    | none ↦ none
    | some content ↦ opinion_of (p.test content (p.relative dir file))
  ]

  -- The status is the opinion of the last directory that has one; with none, it is the one given.
  abbrev pub IsDecided : Bool → List JsText → Bool → Type 0
  IsDecided start dirs status =
      (All (λ (dir : JsText). opinion dir ≡ none) dirs × (status ≡ start))
      ⊎ ((before after : List JsText) × (dir : JsText) × (dirs ≡ before ++ dir ∷ after)
          × (opinion dir ≡ some status)
          × All (λ (d : JsText). opinion d ≡ none) after)

  module _ (definite : IsDefinite p) where
    next_status_lem :
        (status : Bool) (r : TestResult)
        → (r.ignored && r.unignored) ≡ false
        → next_status p status r ≡ or_status status (opinion_of r)
    next_status_lem status r h = ground arith

    abbrev after_one : Bool → JsText → Bool
    after_one status dir = elim (JsMap.get m.ignore_map dir) [
      | none ↦ status
      | some content ↦ next_status p status (p.test content (p.relative dir file))
    ]

    after_one_lem :
        (status : Bool) (dir : JsText) → after_one status dir ≡ or_status status (opinion dir)
    after_one_lem status dir = go (JsMap.get m.ignore_map dir)
      where
        go :
            (o : Option JsText)
            → ◌≡◌ {A = Bool}
                (elim o [
                  | none ↦ status
                  | some content ↦ next_status p status (p.test content (p.relative dir file))
                ])
                (or_status status (elim o [
                  | none ↦ none
                  | some content ↦ opinion_of (p.test content (p.relative dir file))
                ]))
        go none = refl
        go (some content) =
            next_status_lem status (p.test content (p.relative dir file))
              (definite content (p.relative dir file))

    with_opinion :
        (status : Bool) (dir : JsText) (o : Option Bool)
        → opinion dir ≡ o
        → or_status status (opinion dir) ≡ or_status status o
    with_opinion status dir o e = ap (or_status status) e

    ignored_by-IsDecided :
        (start : Bool) (dirs : List JsText) → IsDecided start dirs (ignored_by p m file start dirs)
    unfolding ignored_by
    ignored_by-IsDecided start [] = inl (tt, refl)
    ignored_by-IsDecided start (dir ∷ dirs) =
        elim (ignored_by-IsDecided (after_one start dir) dirs) [
          | inl (silent, e) ↦ elim (Option-cases (opinion dir)) [
            | inl n ↦
                inl ((n, silent), e ∙ (after_one_lem start dir ∙ with_opinion start dir none n))
            | inr (b, o) ↦ inr (
              [],
              dirs,
              dir,
              refl,
              o ∙ ap some (sym (e ∙ (after_one_lem start dir ∙ with_opinion start dir (some b) o))),
              silent,
            )
          ]
          | inr (before, after, d, e, o, silent) ↦
              inr (dir ∷ before, after, d, ap (◌∷◌ dir) e, o, silent)
        ]

    -- If a test never says that a path is both ignored and not: a file other than '.git' and '.' is ignored as the
    -- deepest of the .gitignore files in the directories that hold it says, of those that say anything, and as the exclude file
    -- says if none does; '.git' is ignored, and '.' is not.
    pub is_ignored-IsDecided :
        (p.basename file ≡ text_of ".git" → is_ignored p file m ≡ true)
        × (p.basename file ≢ text_of ".git"
            → p.path file ≡ text_of "."
            → is_ignored p file m ≡ false)
        × (p.basename file ≢ text_of ".git"
            → p.path file ≢ text_of "."
            → IsDecided
                (ignored_by_exclude p m.exclude_file_ignore (p.relative m.root_uri file))
                (find_matching_directories p.decode file m.matcher)
                (is_ignored p file m))
    unfolding is_ignored
    is_ignored-IsDecided = (
      λ e.
          if_cases (λ (b : Bool). b ≡ true) (p.basename file === text_of ".git") true _ (λ t. refl)
            (λ f. absurd (ground (arith, ===_iff (p.basename file) (text_of ".git")))),
      λ n e.
          if_cases (λ (b : Bool). b ≡ false) (p.basename file === text_of ".git") true _
            (λ t. absurd (n ((===_iff (p.basename file) (text_of ".git")).0 t)))
            (λ f.
              if_cases (λ (b : Bool). b ≡ false) (p.path file === text_of ".") false _ (λ t. refl)
                (λ g. absurd (ground (arith, ===_iff (p.path file) (text_of "."))))),
      λ n o.
          if_cases decided (p.basename file === text_of ".git") true _
            (λ t. absurd (n ((===_iff (p.basename file) (text_of ".git")).0 t)))
            (λ f.
              if_cases decided (p.path file === text_of ".") false _
                (λ t. absurd (o ((===_iff (p.path file) (text_of ".")).0 t)))
                (λ g.
                  ignored_by-IsDecided
                    (ignored_by_exclude p m.exclude_file_ignore (p.relative m.root_uri file))
                    (find_matching_directories p.decode file m.matcher))),
    )
      where
        decided : Bool → Type 0
        decided =
            IsDecided (ignored_by_exclude p m.exclude_file_ignore (p.relative m.root_uri file))
              (find_matching_directories p.decode file m.matcher)
