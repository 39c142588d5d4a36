-- ===== src/DuoAccess/Check/Validating.antt =====
-- `validate` on projects that lie below their folders.
use khulnasoft_lsp.Base.{
  ◌+◌, ◌≤◌, Bool, true, false, List, [], ◌∷◌, ◌++◌, Option, none, some, length, length-append,
  length-drop, if_cases, All, JsText, starts_with, without_first, ◌≡◌, refl, ap, arith, Bool-cases,
  inl, inr,
}
use khulnasoft_lsp.DuoAccess.Checker.{
  DuoProject, git_config, holds, find_deepest_from, find_deepest_project_by_path,
  check_project_status,
}
use khulnasoft_lsp.DuoAccess.Workspace.{WorkspaceCache, get_projects_for_workspace_folder}
use khulnasoft_lsp.DuoAccess.Check.{disabled_statuses, validate, is_granted, is_disabled}

-- The git config of the project is in a directory of the folder or below it: its URI is that of the folder, a slash,
-- maybe more, and ".git/config".
abbrev pub IsBelowFolder : JsText → DuoProject → Type 0
IsBelowFolder folder project =
    (rest : JsText) × (project.uri ≡ folder ++ ((47 ∷ rest) ++ git_config))

-- The projects that the cache has for each folder lie below it.
abbrev pub IsPlaced : WorkspaceCache → JsText → Type 0
IsPlaced cache folder = All (IsBelowFolder folder) (get_projects_for_workspace_folder folder cache)

length-starts_with :
    (text start : JsText) → starts_with text start ≡ true → length start ≤ length text
unfolding starts_with
length-starts_with text [] h = omega arith
length-starts_with [] (v ∷ start) h = ground arith
length-starts_with (u ∷ text) (v ∷ start) h = ground (arith, length-starts_with text start)

length-without_first :
    (pattern text : JsText) → length text ≤ length (without_first pattern text) + length pattern
unfolding without_first
length-without_first pattern [] = omega arith
length-without_first pattern (u ∷ text) =
    if_cases (λ (t : JsText). length (u ∷ text) ≤ length t + length pattern)
      (starts_with (u ∷ text) pattern) _ _
      (λ s. omega (arith, length-drop (length pattern) (u ∷ text)))
      (λ n. omega (arith, length-without_first pattern text))

holds-IsBelowFolder :
    (folder : JsText) (project : DuoProject)
    → IsBelowFolder folder project
    → holds folder project ≡ false
unfolding holds
holds-IsBelowFolder folder project (rest, e) = elim (Bool-cases (holds folder project)) [
  | inr n ↦ n
  | inl s ↦
      let short = length-starts_with folder (without_first git_config project.uri) s in
      let cut = length-without_first git_config project.uri in
      absurd (
        omega (
          arith,
          short,
          cut,
          ap length e,
          length-append folder ((47 ∷ rest) ++ git_config),
          length-append (47 ∷ rest) git_config,
        ))
]

none_found :
    (folder : JsText) (projects : List DuoProject)
    → All (IsBelowFolder folder) projects
    → find_deepest_from folder none projects ≡ none
unfolding find_deepest_from
none_found folder [] h = refl
none_found folder (p ∷ projects) (b, h) =
    rw (holds-IsBelowFolder folder p b) (none_found folder projects h)

none_disabled :
    (folder : JsText) (projects : List DuoProject)
    → All (IsBelowFolder folder) projects
    → is_disabled (check_project_status folder projects).1 ≡ false
unfolding check_project_status find_deepest_project_by_path
none_disabled folder [] h = refl
none_disabled folder (p ∷ projects) h = rw (none_found folder (p ∷ projects) h)

no_statuses :
    (folders : List JsText) (cache : WorkspaceCache)
    → All (IsPlaced cache) folders
    → disabled_statuses folders cache ≡ []
unfolding disabled_statuses
no_statuses [] cache h = refl
no_statuses (folder ∷ folders) cache (b, h) =
    rw (none_disabled folder (get_projects_for_workspace_folder folder cache) b)
      (no_statuses folders cache h)

-- If the URI of every git config is that of its folder, a slash, any path, and ".git/config", validation never reports a disabled project, whichever projects are disabled.
pub validate_silent :
    (enabled_without_gitlab_project : Option Bool) (folders : List JsText) (cache : WorkspaceCache)
    → All (IsPlaced cache) folders
    → validate enabled_without_gitlab_project (record { folders = some folders; cache = cache })
      ≡ none
unfolding validate
validate_silent enabled folders cache h =
    if_cases (λ (r : Option (List JsText)). r ≡ none) (is_granted enabled) _ _ (λ _. refl)
      (λ _. rw (no_statuses folders cache h))
