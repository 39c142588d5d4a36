-- ===== src/DuoAccess/Checker/Deepest.antt =====
-- The project that is found for a file.
use khulnasoft_lsp.Base.{
  ℕ, ◌+◌, ◌<◌, ◌≤◌, true, false, List, [], ◌∷◌, ◌++◌, Option, none, some, ◌&&◌, length, if_cases,
  All, JsText, ◌≡◌, refl, arith,
}
use mathlib.Core.List.{append_assoc, append-nil}
use khulnasoft_lsp.DuoAccess.Checker.{
  DuoProject, holds, is_deeper, find_deepest_from, find_deepest_project_by_path,
}

-- If the project holds the file, its URI is shorter than `n`.
abbrev pub IsBelow : JsText → ℕ → DuoProject → Type 0
IsBelow uri n project = holds uri project ≡ true → length project.uri < n

-- No project holds the file; or the project found does, those before it that do are shorter, and those after it are
-- not longer.
abbrev pub IsDeepest : JsText → List DuoProject → Option DuoProject → Type 0
IsDeepest uri projects none = All (IsBelow uri 0) projects
IsDeepest uri projects (some project) =
    (before after : List DuoProject) × (projects ≡ before ++ project ∷ after)
    × (holds uri project ≡ true)
    × All (IsBelow uri (length project.uri)) before
    × All (IsBelow uri (length project.uri + 1)) after

All-append :
    (uri : JsText) (n : ℕ) (ps qs : List DuoProject)
    → All (IsBelow uri n) ps
    → All (IsBelow uri n) qs
    → All (IsBelow uri n) (ps ++ qs)
All-append uri n [] qs h g = g
All-append uri n (p ∷ ps) qs (h, hs) g = (h, All-append uri n ps qs hs g)

All-IsBelow :
    (uri : JsText) (n m : ℕ) (ps : List DuoProject)
    → n ≤ m
    → All (IsBelow uri n) ps
    → All (IsBelow uri m) ps
All-IsBelow uri n m [] h hs = tt
All-IsBelow uri n m (p ∷ ps) h (b, bs) =
    (λ held. let short : length p.uri < n = b held in omega arith, All-IsBelow uri n m ps h bs)

-- A project that is longer than the one found takes its place.
longest :
    (uri : JsText) (done : List DuoProject) (found : Option DuoProject) (p : DuoProject)
    → IsDeepest uri done found
    → is_deeper found p ≡ true
    → All (IsBelow uri (length p.uri)) done
longest uri done none p h deeper = All-IsBelow uri 0 (length p.uri) done (omega arith) h
longest uri done (some q) p (before, after, e, held, hb, ha) deeper =
    let l : length q.uri < length p.uri = ground arith in
    rw e (
      All-append uri (length p.uri) before (q ∷ after)
        (All-IsBelow uri (length q.uri) (length p.uri) before (omega arith) hb)
        (λ _. l, All-IsBelow uri (length q.uri + 1) (length p.uri) after (omega arith) ha))

-- A project that does not hold the file, or is not longer, changes nothing.
passed :
    (uri : JsText) (done : List DuoProject) (found : Option DuoProject) (p : DuoProject)
    → IsDeepest uri done found
    → (holds uri p && is_deeper found p) ≡ false
    → IsDeepest uri (done ++ p ∷ []) found
passed uri done none p h n = All-append uri 0 done (p ∷ []) h (λ held. ground arith, tt)
passed uri done (some q) p (before, after, e, held, hb, ha) n = (
  before,
  after ++ p ∷ [],
  rw e (append_assoc before (q ∷ after) (p ∷ [])),
  held,
  hb,
  All-append uri (length q.uri + 1) after (p ∷ []) ha (λ h. ground arith, tt),
)

find_deepest_from-IsDeepest :
    (uri : JsText) (done : List DuoProject) (found : Option DuoProject) (ps : List DuoProject)
    → IsDeepest uri done found
    → IsDeepest uri (done ++ ps) (find_deepest_from uri found ps)
unfolding find_deepest_from
find_deepest_from-IsDeepest uri done found [] h = rw (append-nil done) h
find_deepest_from-IsDeepest uri done found (p ∷ ps) h = rw⁻¹ (append_assoc done (p ∷ []) ps) (
    find_deepest_from-IsDeepest uri (done ++ p ∷ []) _ ps (
      if_cases (IsDeepest uri (done ++ p ∷ [])) (holds uri p && is_deeper found p) _ _
        (λ t. (done, [], refl, ground arith, longest uri done found p h (ground arith), tt))
        (λ n. passed uri done found p h n)))

-- For a file the project is found whose directory holds it and whose URI is the longest among those, the first of
-- several as long; none is found exactly if no project holds the file.
pub find_deepest_project_by_path-IsDeepest :
    (uri : JsText) (projects : List DuoProject)
    → IsDeepest uri projects (find_deepest_project_by_path uri projects)
unfolding find_deepest_project_by_path
find_deepest_project_by_path-IsDeepest uri projects =
    find_deepest_from-IsDeepest uri [] none projects tt
