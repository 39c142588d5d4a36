-- ===== src/DuoAccess/Check.antt =====
-- `src/common/feature_state/project_duo_acces_check.ts`. A check waits once, for the workspace folders: `begin_check` is
-- what comes before, and `finish_check` what comes after. Listeners are left out; each change is kept with the state of
-- the check that they read.
pub mod Validating
pub mod Engaging
use khulnasoft_lsp.Base.{
  ℕ, Bool, true, false, not, List, [], ◌∷◌, ◌++◌, Option, none, some, find, if◌then◌else◌, JsText,
  starts_with,
}
use khulnasoft_lsp.DuoAccess.Checker.{
  DuoProject, DuoProjectStatus, duo_enabled, duo_disabled, non_gitlab_project, check_project_status,
}
use khulnasoft_lsp.DuoAccess.Workspace.{WorkspaceCache, get_projects_for_workspace_folder}

-- `checking` are the documents of the checks that wait, oldest first.
pub record ProjectDuoAccessCheck : Type 0 where
  pub has_duo_access : Option Bool
  pub current_document : Option JsText
  pub is_enabled_in_settings : Bool
  pub checking : List JsText
  pub changes : List Bool

abbrev pub new : ProjectDuoAccessCheck
new = record {
  has_duo_access = none;
  current_document = none;
  is_enabled_in_settings = true;
  checking = [];
  changes = [];
}

abbrev pub is_granted : Option Bool → Bool
is_granted none = false
is_granted (some b) = b

unfoldable pub engaged : ProjectDuoAccessCheck → Bool
engaged c = not (is_granted c.has_duo_access)

unfoldable pub emit_change : ProjectDuoAccessCheck → ProjectDuoAccessCheck
unfolding engaged
emit_change c = record c { changes = c.changes ++ engaged c ∷ [] }

abbrev pub wait_for : Option JsText → ProjectDuoAccessCheck → ProjectDuoAccessCheck
wait_for none c = emit_change c
wait_for (some uri) c = record c { checking = c.checking ++ uri ∷ [] }

-- `#checkIfProjectHasDuoAccess` up to its await.
unfoldable pub begin_check : ProjectDuoAccessCheck → ProjectDuoAccessCheck
unfolding emit_change
begin_check c =
    wait_for c.current_document (record c { has_duo_access = some c.is_enabled_in_settings })

-- The configured folders, and the projects of each.
pub record Workspace : Type 0 where
  pub folders : Option (List JsText)
  pub cache : WorkspaceCache

abbrev find_in : JsText → Option (List JsText) → Option JsText
find_in uri none = none
find_in uri (some folders) = find (starts_with uri) folders

-- `#getWorkspaceFolderForUri`
unfoldable pub get_workspace_folder_for_uri : JsText → Workspace → Option JsText
unfolding find
get_workspace_folder_for_uri uri w = find_in uri w.folders

abbrev pub grant : DuoProjectStatus → ProjectDuoAccessCheck → ProjectDuoAccessCheck
grant duo_enabled c = record c { has_duo_access = some true }
grant duo_disabled c = record c { has_duo_access = some false }
grant non_gitlab_project c = c

-- The status is that of the document that is current by then.
unfoldable pub apply_status :
    Workspace → Option JsText → Option JsText → ProjectDuoAccessCheck → ProjectDuoAccessCheck
unfolding check_project_status get_projects_for_workspace_folder
apply_status w (some folder) (some uri) c =
    grant (check_project_status uri (get_projects_for_workspace_folder folder w.cache)).1 c
apply_status w _ _ c = c

abbrev pub finish_from : Workspace → List JsText → ProjectDuoAccessCheck → ProjectDuoAccessCheck
finish_from w [] c = c
finish_from w (uri ∷ rest) c = emit_change (
    apply_status w (get_workspace_folder_for_uri uri w) c.current_document
      (record c { checking = rest }))

-- The rest of `#checkIfProjectHasDuoAccess`, of the check that has waited longest.
unfoldable pub finish_check : Workspace → ProjectDuoAccessCheck → ProjectDuoAccessCheck
unfolding get_workspace_folder_for_uri apply_status emit_change
finish_check w c = finish_from w c.checking c

-- The listeners of the constructor.
unfoldable pub on_did_set_active : JsText → ProjectDuoAccessCheck → ProjectDuoAccessCheck
unfolding begin_check
on_did_set_active document c = begin_check (record c { current_document = some document })

unfoldable pub on_config_change : Option Bool → ProjectDuoAccessCheck → ProjectDuoAccessCheck
unfolding begin_check
on_config_change enabled_without_gitlab_project c =
    begin_check (record c { is_enabled_in_settings = is_granted enabled_without_gitlab_project })

abbrev pub is_disabled : DuoProjectStatus → Bool
is_disabled duo_disabled = true
is_disabled _ = false

-- The `projectPath` of a project that is disabled.
abbrev pub path_of : Option DuoProject × DuoProjectStatus → List JsText
path_of (some project, duo_disabled) = project.project_path ∷ []
path_of _ = []

-- The statuses of the folders that are `duo-disabled`.
unfoldable pub disabled_statuses :
    List JsText → WorkspaceCache → List (Option DuoProject × DuoProjectStatus)
unfolding check_project_status get_projects_for_workspace_folder
disabled_statuses [] cache = []
disabled_statuses (folder ∷ folders) cache =
    let status = check_project_status folder (get_projects_for_workspace_folder folder cache) in
    if is_disabled status.1
    then status ∷ disabled_statuses folders cache
    else disabled_statuses folders cache

abbrev pub paths_of : List (Option DuoProject × DuoProjectStatus) → List JsText
paths_of [] = []
paths_of (status ∷ statuses) = path_of status ++ paths_of statuses

abbrev pub report : List (Option DuoProject × DuoProjectStatus) → Option (List JsText)
report [] = none
report (status ∷ statuses) = some (paths_of (status ∷ statuses))

abbrev pub or_no_folders : Option (List JsText) → List JsText
or_no_folders none = []
or_no_folders (some folders) = folders

-- `validate`: the project paths in the details of the check that it gives, if it gives one.
unfoldable pub validate : Option Bool → Workspace → Option (List JsText)
unfolding disabled_statuses
validate enabled_without_gitlab_project w =
    if is_granted enabled_without_gitlab_project
    then none
    else report (disabled_statuses (or_no_folders w.folders) w.cache)
