-- ===== src/DuoAccess/Workspace/Updating.antt =====
-- What the cache holds after an update.
use khulnasoft_lsp.Base.{
  ◌+◌, Bool, true, false, List, [], ◌∷◌, ◌++◌, map, Option, none, some, ◌&&◌, if◌then◌else◌, JsText,
  units_key, ◌===◌, ===_iff, contains, ◌≡◌, refl, ap, Bool-cases, inl, inr,
}
use khulnasoft_lsp.Base.JsMap
use khulnasoft_lsp.Base.JsMap.{JsMap, get-set}
use khulnasoft_lsp.DuoAccess.Checker.{DuoProject}
use khulnasoft_lsp.DuoAccess.Workspace.{
  KhulnaSoftRemote, ConfigFile, Outside, WorkspaceCache, or_no_projects,
  get_projects_for_workspace_folder, remote_urls_from_git_config, to_project, push,
  projects_of_urls, append_projects, projects_of_files, after_walk,
  duo_projects_for_workspace_folder, add_entry, duo_projects_of, clear, set_all, fill, update_cache,
}

-- Every remote has a url.
abbrev pub are_known : List (Option JsText) → Bool
are_known [] = true
are_known (none ∷ urls) = false
are_known (some url ∷ urls) = are_known urls

abbrev pub are_complete : List ConfigFile → Bool
are_complete [] = true
are_complete (file ∷ files) =
    are_known (remote_urls_from_git_config file.sections) && are_complete files

abbrev is_walked : Option (List ConfigFile) → Bool
is_walked none = false
is_walked (some files) = are_complete files

-- The walk of the folder succeeds, and every remote that it finds has a url.
abbrev pub is_readable : Outside → JsText → Bool
is_readable o folder = is_walked (o.find_files_for_directory folder)

abbrev pub are_readable : Outside → List JsText → Bool
are_readable o [] = true
are_readable o (folder ∷ folders) = is_readable o folder && are_readable o folders

module _ (o : Outside) where
  abbrev cons_project : Option KhulnaSoftRemote → JsText → List DuoProject → List DuoProject
  cons_project none file_uri projects = projects
  cons_project (some remote) file_uri projects = to_project o file_uri remote ∷ projects

  -- The projects of the remotes that the parser knows.
  abbrev pub known_projects : JsText → List (Option JsText) → List DuoProject
  known_projects file_uri [] = []
  known_projects file_uri (none ∷ urls) = known_projects file_uri urls
  known_projects file_uri (some url ∷ urls) =
      cons_project (o.parse_remote url) file_uri (known_projects file_uri urls)

  abbrev pub projects_in : List ConfigFile → List DuoProject
  projects_in [] = []
  projects_in (file ∷ files) =
      known_projects file.file_uri (remote_urls_from_git_config file.sections) ++ projects_in files

  abbrev projects_walked : Option (List ConfigFile) → List DuoProject
  projects_walked none = []
  projects_walked (some files) = projects_in files

  -- The projects of the folder: one for each remote of each git config that the parser knows.
  abbrev pub folder_projects : JsText → List DuoProject
  folder_projects folder = projects_walked (o.find_files_for_directory folder)

  push-some :
      (remote : Option KhulnaSoftRemote) (file_uri : JsText) (projects : List DuoProject)
      → push o remote file_uri (some projects) ≡ some (cons_project remote file_uri projects)
  push-some none file_uri projects = refl
  push-some (some remote) file_uri projects = refl

  projects_of_urls_lem :
      (file_uri : JsText) (urls : List (Option JsText))
      → projects_of_urls o file_uri urls
        ≡ (if are_known urls then some (known_projects file_uri urls) else none)
  unfolding projects_of_urls
  projects_of_urls_lem file_uri [] = refl
  projects_of_urls_lem file_uri (none ∷ urls) = refl
  projects_of_urls_lem file_uri (some url ∷ urls) = elim (Bool-cases (are_known urls)) [
    | inl k ↦ rw (projects_of_urls_lem file_uri urls, k) (push-some (o.parse_remote url) file_uri _)
    | inr k ↦ rw (projects_of_urls_lem file_uri urls, k)
  ]

  projects_of_files_lem :
      (files : List ConfigFile)
      → projects_of_files o files ≡ (if are_complete files then some (projects_in files) else none)
  unfolding projects_of_files
  projects_of_files_lem [] = refl
  projects_of_files_lem (file ∷ files) =
      let urls = remote_urls_from_git_config file.sections in
      rw (projects_of_urls_lem file.file_uri urls, projects_of_files_lem files)
        (both (are_known urls) (are_complete files) _ _)
    where
      both :
          (b c : Bool) (ps qs : List DuoProject)
          → append_projects o (if b then some ps else none) (if c then some qs else none)
            ≡ (if b && c then some (ps ++ qs) else none)
      both true true ps qs = refl
      both true false ps qs = refl
      both false c ps qs = refl

  duo_projects_for_lem :
      (folder : JsText)
      → duo_projects_for_workspace_folder o folder
        ≡ (if is_readable o folder then some (folder_projects folder) else none)
  unfolding duo_projects_for_workspace_folder
  duo_projects_for_lem folder = walked (o.find_files_for_directory folder)
    where
      walked :
          (walk : Option (List ConfigFile))
          → after_walk o walk ≡ (if is_walked walk then some (projects_walked walk) else none)
      walked none = refl
      walked (some files) = projects_of_files_lem files

  duo_projects_of_lem :
      (folders : List JsText)
      → duo_projects_of o folders ≡ (
          if are_readable o folders then some (map (λ f. (f, folder_projects f)) folders) else none)
  unfolding duo_projects_of
  duo_projects_of_lem [] = refl
  duo_projects_of_lem (folder ∷ folders) =
      rw (duo_projects_for_lem folder, duo_projects_of_lem folders)
        (both (is_readable o folder) (are_readable o folders) _ _)
    where
      both :
          (b c : Bool) (ps : List DuoProject) (rest : List (JsText × List DuoProject))
          → add_entry o folder (if b then some ps else none) (if c then some rest else none)
            ≡ (if b && c then some ((folder, ps) ∷ rest) else none)
      both true true ps rest = refl
      both true false ps rest = refl
      both false c ps rest = refl

get-set_all :
    (g : JsText → List DuoProject) (folders : List JsText) (m : JsMap JsText (List DuoProject))
    (folder : JsText)
    → JsMap.get (set_all (map (λ f. (f, g f)) folders) m) folder
      ≡ (if contains folders folder then some (g folder) else JsMap.get m folder)
unfolding set_all contains
get-set_all g [] m folder = refl
get-set_all g (f ∷ folders) m folder = elim (Bool-cases (f === folder)) [
  | inl same ↦ elim (Bool-cases (contains folders folder)) [
    | inl c ↦ rw (get-set_all g folders (JsMap.set m f (g f)) folder, same, c)
    | inr c ↦
        rw (get-set_all g folders (JsMap.set m f (g f)) folder, get-set m f folder (g f), same, c)
          (ap (λ x. some (g x)) ((===_iff f folder).0 same))
  ]
  | inr other ↦
      rw (get-set_all g folders (JsMap.set m f (g f)) folder, get-set m f folder (g f), other)
]

-- After an update each of the folders given has one project for each remote of its git configs that the parser
-- knows, other folders have none, and one change is told, if every walk succeeds and every remote of every
-- config has a url. Otherwise no folder has any project, and no change is told.
pub update_cache-projects :
    (o : Outside) (folders : List JsText) (c : WorkspaceCache) (folder : JsText)
    → (get_projects_for_workspace_folder folder (update_cache o folders c) ≡ (
        if are_readable o folders && contains folders folder then folder_projects o folder else []))
      × ((update_cache o folders c).changes
          ≡ (if are_readable o folders then c.changes + 1 else c.changes))
unfolding update_cache fill clear get_projects_for_workspace_folder JsMap.get
update_cache-projects o folders c folder = elim (Bool-cases (are_readable o folders)) [
  | inl r ↦ rw (duo_projects_of_lem o folders, r) (found, refl)
  | inr r ↦ rw (duo_projects_of_lem o folders, r) (refl, refl)
]
  where
    found :
        or_no_projects (JsMap.get (set_all (map (λ f. (f, folder_projects o f)) folders) []) folder)
        ≡ (if contains folders folder then folder_projects o folder else [])
    found = elim (Bool-cases (contains folders folder)) [
      | inl k ↦ rw (get-set_all (folder_projects o) folders [] folder, k)
      | inr k ↦ rw (get-set_all (folder_projects o) folders [] folder, k)
    ]
