-- ===== src/DuoAccess/Check/Engaging.antt =====
-- When the check is engaged.
use khulnasoft_lsp.Base.{
  Bool, not, List, [], ◌∷◌, ◌++◌, Option, none, some, JsText, ◌≡◌, refl, Bool-cases, inl, inr,
}
use khulnasoft_lsp.DuoAccess.Checker.{
  DuoProject, find_deepest_project_by_path, find_deepest_from, check_project_status, status_of,
  DuoProjectStatus, duo_enabled, duo_disabled, non_gitlab_project,
}
use khulnasoft_lsp.DuoAccess.Workspace.{get_projects_for_workspace_folder}
use khulnasoft_lsp.DuoAccess.Check.{
  ProjectDuoAccessCheck, engaged, emit_change, begin_check, Workspace, get_workspace_folder_for_uri,
  grant, apply_status, finish_check, on_did_set_active,
}

-- The project of a document in the folder that is found for it.
abbrev project_in : Workspace → JsText → Option JsText → Option DuoProject
project_in w uri none = none
project_in w uri (some folder) =
    find_deepest_project_by_path uri (get_projects_for_workspace_folder folder w.cache)

abbrev pub project_of : Workspace → JsText → Option DuoProject
project_of w uri = project_in w uri (get_workspace_folder_for_uri uri w)

-- A document of a project may use Duo if the project may, and any other if the settings say so.
abbrev pub has_access : Bool → Option DuoProject → Bool
has_access by_settings none = by_settings
has_access by_settings (some project) = project.enabled

granted :
    (by_settings : Bool) (found : Option DuoProject) (c : ProjectDuoAccessCheck)
    → c.has_duo_access ≡ some by_settings
    → engaged (grant (status_of found) c) ≡ not (has_access by_settings found)
unfolding engaged
granted by_settings none c h = rw h
granted by_settings (some project) c h = elim (Bool-cases project.enabled) [
  | inl e ↦ rw e
  | inr e ↦ rw e
]

applied :
    (w : Workspace) (uri : JsText) (folder : Option JsText) (by_settings : Bool)
    (c : ProjectDuoAccessCheck)
    → c.has_duo_access ≡ some by_settings
    → engaged (apply_status w folder (some uri) c)
      ≡ not (has_access by_settings (project_in w uri folder))
unfolding apply_status engaged check_project_status find_deepest_project_by_path find_deepest_from
applied w uri none by_settings c h = rw h
applied w uri (some folder) by_settings c h =
    status (get_projects_for_workspace_folder folder w.cache)
  where
    status :
        (projects : List DuoProject)
        → engaged (grant (check_project_status uri projects).1 c)
          ≡ not (has_access by_settings (find_deepest_project_by_path uri projects))
    status [] = rw h
    status (p ∷ projects) =
        granted by_settings (find_deepest_project_by_path uri (p ∷ projects)) c h

grant_keeps :
    (status : DuoProjectStatus) (c : ProjectDuoAccessCheck)
    → ((grant status c).changes ≡ c.changes) × ((grant status c).checking ≡ c.checking)
grant_keeps duo_enabled c = (refl, refl)
grant_keeps duo_disabled c = (refl, refl)
grant_keeps non_gitlab_project c = (refl, refl)

apply_status_keeps :
    (w : Workspace) (uri : JsText) (folder : Option JsText) (c : ProjectDuoAccessCheck)
    → ((apply_status w folder (some uri) c).changes ≡ c.changes)
      × ((apply_status w folder (some uri) c).checking ≡ c.checking)
unfolding apply_status
apply_status_keeps w uri none c = (refl, refl)
apply_status_keeps w uri (some folder) c = grant_keeps _ c

-- When a document becomes the active one while no check waits, and the check of it ends, the check is engaged, and says so
-- in one change, exactly if Duo is disabled for the deepest project that holds the document in the first
-- folder whose URI the document's begins with, or there is no such project and the settings do not allow that.
pub finish_check-engaged :
    (w : Workspace) (uri : JsText) (c : ProjectDuoAccessCheck)
    → c.checking ≡ []
    → let ended = finish_check w (on_did_set_active uri c) in
      (engaged ended ≡ not (has_access c.is_enabled_in_settings (project_of w uri)))
      × (ended.changes
          ≡ c.changes ++ not (has_access c.is_enabled_in_settings (project_of w uri)) ∷ [])
      × (ended.checking ≡ [])
unfolding finish_check on_did_set_active begin_check emit_change
finish_check-engaged w uri c idle =
    let begun = record c {
      has_duo_access = some c.is_enabled_in_settings;
      current_document = some uri;
      checking = [];
    } in
    let folder = get_workspace_folder_for_uri uri w in
    let h = applied w uri folder c.is_enabled_in_settings begun refl in
    let (same, none_wait) = apply_status_keeps w uri folder begun in
    rw idle (h, rw (same, h), none_wait)
