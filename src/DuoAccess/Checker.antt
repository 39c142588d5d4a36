-- ===== src/DuoAccess/Checker.antt =====
-- `project_access_checker.ts`, with `DuoProject` of `workspace_project_access_cache.ts`.
pub mod Deepest
use khulnasoft_lsp.Base.{
  ℕ, Bool, true, false, List, [], ◌∷◌, Option, none, some, ◌&&◌, ltb, length, if◌then◌else◌, JsText,
  starts_with, without_first,
}

pub record DuoProject : Type 0 where
  pub uri : JsText
  pub enabled : Bool
  pub project_path : JsText
  pub namespace_with_path : JsText

pub data DuoProjectStatus : Type 0 where
  duo_enabled duo_disabled non_gitlab_project : DuoProjectStatus

-- ".git/config"
abbrev pub git_config : JsText
git_config = 46 ∷ 103 ∷ 105 ∷ 116 ∷ 47 ∷ 99 ∷ 111 ∷ 110 ∷ 102 ∷ 105 ∷ 103 ∷ []

-- `uri.startsWith(project.uri.replace('.git/config', ''))`
unfoldable pub holds : JsText → DuoProject → Bool
holds uri project = starts_with uri (without_first git_config project.uri)

abbrev pub is_deeper : Option DuoProject → DuoProject → Bool
is_deeper none project = true
is_deeper (some deepest) project = ltb (length deepest.uri) (length project.uri)

-- The loop of `#findDeepestProjectByPath`, from `deepest_project` on.
unfoldable pub find_deepest_from : JsText → Option DuoProject → List DuoProject → Option DuoProject
find_deepest_from uri deepest_project [] = deepest_project
find_deepest_from uri deepest_project (project ∷ projects) =
    find_deepest_from uri
      (if holds uri project && is_deeper deepest_project project
        then some project
        else deepest_project)
      projects

unfoldable pub find_deepest_project_by_path : JsText → List DuoProject → Option DuoProject
unfolding find_deepest_from
find_deepest_project_by_path uri projects = find_deepest_from uri none projects

abbrev pub status_of : Option DuoProject → DuoProjectStatus
status_of none = non_gitlab_project
status_of (some project) = if project.enabled then duo_enabled else duo_disabled

-- `checkProjectStatus`, for the projects of the workspace folder.
unfoldable pub check_project_status :
    JsText → List DuoProject → Option DuoProject × DuoProjectStatus
unfolding find_deepest_project_by_path
check_project_status uri [] = (none, non_gitlab_project)
check_project_status uri (project ∷ projects) =
    let found = find_deepest_project_by_path uri (project ∷ projects) in (found, status_of found)
