-- ===== src/DuoAccess/Workspace.antt =====
-- `workspace_project_access_cache.ts`. The walk of a directory, the file system with the parser of ini files, the
-- parser of remotes and the API are parameters. Log lines are left out; a change is counted in place of its listeners.
pub mod Updating
use khulnasoft_lsp.Base.{
  ℕ, ◌+◌, Bool, true, false, List, [], ◌∷◌, ◌++◌, map, Option, none, some, if◌then◌else◌, JsText,
  starts_with, units_key,
}
use khulnasoft_lsp.Base.JsMap
use khulnasoft_lsp.Base.JsMap.{JsMap}
use khulnasoft_lsp.DuoAccess.Checker.{DuoProject}

-- `KhulnaSoftRemote`, of which the host and the namespace are left out.
pub record KhulnaSoftRemote : Type 0 where
  pub project_path : JsText
  pub namespace_with_path : JsText

-- A section of a git config, with its url if it has one.
pub record Section : Type 0 where
  pub name : JsText
  pub url : Option JsText

-- A git config, with its sections unless it cannot be read.
pub record ConfigFile : Type 0 where
  pub file_uri : JsText
  pub sections : Option (List Section)

-- What the cache asks. A walk may throw, and so may the API, which may also not know a project.
pub record Outside : Type 0 where
  pub find_files_for_directory : JsText → Option (List ConfigFile)
  pub parse_remote : JsText → Option KhulnaSoftRemote
  pub fetch_duo_features_enabled : JsText → Option (Option Bool)

pub record WorkspaceCache : Type 0 where
  pub duo_projects : JsMap JsText (List DuoProject)
  pub changes : ℕ

abbrev pub or_no_projects : Option (List DuoProject) → List DuoProject
or_no_projects none = []
or_no_projects (some projects) = projects

-- `getProjectsForWorkspaceFolder`
unfoldable pub get_projects_for_workspace_folder : JsText → WorkspaceCache → List DuoProject
get_projects_for_workspace_folder folder c = or_no_projects (JsMap.get c.duo_projects folder)

-- "remote "
abbrev pub remote_prefix : JsText
remote_prefix = 114 ∷ 101 ∷ 109 ∷ 111 ∷ 116 ∷ 101 ∷ 32 ∷ []

-- `#getRemoteUrls`: the url of a section may be undefined.
unfoldable pub get_remote_urls : List Section → List (Option JsText)
get_remote_urls [] = []
get_remote_urls (section ∷ sections) =
    if starts_with section.name remote_prefix
    then section.url ∷ get_remote_urls sections
    else get_remote_urls sections

-- `#remoteUrlsFromGitConfig`
unfoldable pub remote_urls_from_git_config : Option (List Section) → List (Option JsText)
unfolding get_remote_urls
remote_urls_from_git_config none = []
remote_urls_from_git_config (some sections) = get_remote_urls sections

-- `#checkDuoFeaturesEnabled`: a project is taken as enabled if the API throws.
unfoldable pub check_duo_features_enabled : Option (Option Bool) → Bool
check_duo_features_enabled none = true
check_duo_features_enabled (some none) = false
check_duo_features_enabled (some (some enabled)) = enabled

module _ (o : Outside) where
  unfoldable pub to_project : JsText → KhulnaSoftRemote → DuoProject
  unfolding check_duo_features_enabled
  to_project file_uri remote = record {
    uri = file_uri;
    enabled = check_duo_features_enabled (o.fetch_duo_features_enabled remote.namespace_with_path);
    project_path = remote.project_path;
    namespace_with_path = remote.namespace_with_path;
  }

  abbrev pub push :
      Option KhulnaSoftRemote → JsText → Option (List DuoProject) → Option (List DuoProject)
  push remote file_uri none = none
  push none file_uri (some projects) = some projects
  push (some remote) file_uri (some projects) = some (to_project file_uri remote ∷ projects)

  -- `#gitlabRemotesForFileUri`, as projects: the parser throws on a url that is undefined.
  unfoldable pub projects_of_urls : JsText → List (Option JsText) → Option (List DuoProject)
  projects_of_urls file_uri [] = some []
  projects_of_urls file_uri (none ∷ urls) = none
  projects_of_urls file_uri (some url ∷ urls) =
      push (o.parse_remote url) file_uri (projects_of_urls file_uri urls)

  abbrev pub append_projects :
      Option (List DuoProject) → Option (List DuoProject) → Option (List DuoProject)
  append_projects none rest = none
  append_projects (some projects) none = none
  append_projects (some projects) (some rest) = some (projects ++ rest)

  -- `#gitlabRemotesForWorkspaceFolder`, as projects.
  unfoldable pub projects_of_files : List ConfigFile → Option (List DuoProject)
  unfolding projects_of_urls remote_urls_from_git_config
  projects_of_files [] = some []
  projects_of_files (file ∷ files) =
      append_projects (projects_of_urls file.file_uri (remote_urls_from_git_config file.sections))
        (projects_of_files files)

  abbrev pub after_walk : Option (List ConfigFile) → Option (List DuoProject)
  after_walk none = none
  after_walk (some files) = projects_of_files files

  -- `#duoProjectsForWorkspaceFolder`; `none` when it throws.
  unfoldable pub duo_projects_for_workspace_folder : JsText → Option (List DuoProject)
  duo_projects_for_workspace_folder folder = after_walk (o.find_files_for_directory folder)

  abbrev pub add_entry :
      JsText
      → Option (List DuoProject)
      → Option (List (JsText × List DuoProject))
      → Option (List (JsText × List DuoProject))
  add_entry folder none rest = none
  add_entry folder (some projects) none = none
  add_entry folder (some projects) (some rest) = some ((folder, projects) ∷ rest)

  -- The `Promise.all` of `updateCache`.
  unfoldable pub duo_projects_of : List JsText → Option (List (JsText × List DuoProject))
  unfolding duo_projects_for_workspace_folder
  duo_projects_of [] = some []
  duo_projects_of (folder ∷ folders) =
      add_entry folder (duo_projects_for_workspace_folder folder) (duo_projects_of folders)

-- `updateCache` up to its first await.
unfoldable pub clear : WorkspaceCache → WorkspaceCache
clear c = record c { duo_projects = [] }

unfoldable pub set_all :
    List (JsText × List DuoProject)
    → JsMap JsText (List DuoProject)
    → JsMap JsText (List DuoProject)
set_all [] m = m
set_all ((folder, projects) ∷ entries) m = set_all entries (JsMap.set m folder projects)

-- `updateCache` from there on; nothing is set when a folder throws.
unfoldable pub fill : Option (List (JsText × List DuoProject)) → WorkspaceCache → WorkspaceCache
unfolding set_all
fill none c = c
fill (some entries) c = record {
  duo_projects = set_all entries c.duo_projects;
  changes = c.changes + 1;
}

unfoldable pub update_cache : Outside → List JsText → WorkspaceCache → WorkspaceCache
unfolding clear fill duo_projects_of
update_cache o folders c = fill (duo_projects_of o folders) (clear c)
