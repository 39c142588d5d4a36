-- ===== src/DuoAccess/Tests.antt =====
-- The theorems on a folder "w" with a project that is disabled.
use khulnasoft_lsp.Base.{
  ℕ, true, false, not, List, [], ◌∷◌, ◌++◌, Option, some, ◌&&◌, if◌then◌else◌, contains, JsText,
  number_key, units_key, ◌≡◌, refl,
}
use khulnasoft_lsp.DuoAccess.Checker.{DuoProject, git_config, find_deepest_project_by_path}
use khulnasoft_lsp.DuoAccess.Checker.Deepest.{IsDeepest, find_deepest_project_by_path-IsDeepest}
use khulnasoft_lsp.DuoAccess.Workspace.{
  Outside, KhulnaSoftRemote, WorkspaceCache, get_projects_for_workspace_folder, update_cache,
  remote_prefix,
}
use khulnasoft_lsp.DuoAccess.Workspace.Updating.{
  are_readable, folder_projects, update_cache-projects,
}
use khulnasoft_lsp.DuoAccess.ApiCache.{Statuses, Edge}
use khulnasoft_lsp.DuoAccess.Check.{new, engaged, Workspace, finish_check, on_did_set_active}
use khulnasoft_lsp.DuoAccess.Check.Engaging.{has_access, project_of, finish_check-engaged}

abbrev folder : JsText
folder = 119 ∷ []

abbrev project : DuoProject
project = record {
  uri = folder ++ ((47 ∷ []) ++ git_config);
  enabled = false;
  project_path = 112 ∷ [];
  namespace_with_path = 110 ∷ 47 ∷ 112 ∷ [];
}

-- "w/a"
abbrev document : JsText
document = folder ++ 47 ∷ 97 ∷ []

abbrev cache : WorkspaceCache
cache = record { duo_projects = (folder, project ∷ []) ∷ []; changes = 1 }

find_deepest_project_by_path-IsDeepest_example :
    IsDeepest document (project ∷ []) (find_deepest_project_by_path document (project ∷ []))
find_deepest_project_by_path-IsDeepest_example =
    find_deepest_project_by_path-IsDeepest document (project ∷ [])

abbrev remote : KhulnaSoftRemote
remote = record { project_path = 112 ∷ []; namespace_with_path = 110 ∷ 47 ∷ 112 ∷ [] }

-- One git config with one remote; the API says that its project is disabled.
abbrev outside : Outside
outside = record {
  find_files_for_directory = λ f. some (
      record {
        file_uri = folder ++ ((47 ∷ []) ++ git_config);
        sections = some (record { name = remote_prefix; url = some (117 ∷ []) } ∷ []);
      }
      ∷ []);
  parse_remote = λ url. some remote;
  fetch_duo_features_enabled = λ path. some (some false);
}

update_cache-projects_example :
    (get_projects_for_workspace_folder folder (update_cache outside (folder ∷ []) cache) ≡ (
      if are_readable outside (folder ∷ []) && contains (folder ∷ []) folder
      then folder_projects outside folder
      else []))
    × ((update_cache outside (folder ∷ []) cache).changes
        ≡ (if are_readable outside (folder ∷ []) then 2 else 1))
update_cache-projects_example = update_cache-projects outside (folder ∷ []) cache folder

-- Project 4 is known to be enabled, and project 5 is asked for.
abbrev known : Statuses
known = (4, true) ∷ []

abbrev asked : List ℕ
asked = 4 ∷ 5 ∷ []

abbrev uniq : List ℕ → List ℕ
uniq ids = ids

abbrev fetch : List ℕ → Option (List Edge)
fetch ids = some (record { id = some 5; duo_features_enabled = true } ∷ [])

abbrev workspace : Workspace
workspace = record { folders = some (folder ∷ []); cache = cache }

finish_check-engaged_example :
    (engaged (finish_check workspace (on_did_set_active document new))
      ≡ not (has_access true (project_of workspace document)))
    × ((finish_check workspace (on_did_set_active document new)).changes
        ≡ [] ++ not (has_access true (project_of workspace document)) ∷ [])
    × ((finish_check workspace (on_did_set_active document new)).checking ≡ [])
finish_check-engaged_example = finish_check-engaged workspace document new refl
