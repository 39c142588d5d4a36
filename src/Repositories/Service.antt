-- ===== src/Repositories/Service.antt =====
-- `repository_service.ts`: the repositories of the workspace folders, from the files of a folder. The queues run one task
-- after the other, and are left out.
pub mod Disposing
pub mod Deepest
pub mod Queries
pub mod Climbing
pub mod Events
use khulnasoft_lsp.Base.{
  ℕ, zero, suc, ◌+◌, Bool, true, false, not, List, [], ◌∷◌, ◌++◌, Option, none, some, ◌&&◌,
  if◌then◌else◌, filter, is_some, length, JsText, starts_with, units_key, ◌===◌,
}
use khulnasoft_lsp.Base.JsMap
use khulnasoft_lsp.Base.JsMap.{JsMap}
use khulnasoft_lsp.Repositories.Ignoring.{Paths}
use khulnasoft_lsp.Repositories.Matcher.{
  Trie, empty, add_directory_to_match, find_matching_directories,
}
use khulnasoft_lsp.Repositories.Repository.{
  RepositoryFile, GetFileOptions, Repository, is_git_config_file, set_file, get_file, get_directory,
  set_directory, get_current_tree_files, setup_git_for_repository,
}
use khulnasoft_lsp.Repositories.Repository

-- The paths of URIs in the file system, `dirname` of those, and the URI of a path; the files as they are read, the files
-- that git tracks in a repository, the files below a directory as the walker finds them, whether `lstat` says that something
-- is a directory, and whether it matches the common patterns to skip. `none` means that the call throws.
pub record Disk : Type 0 where
  pub fs_path : JsText → JsText
  pub path_dirname : JsText → JsText
  pub path_to_uri : JsText → JsText
  pub read_file : JsText → Option JsText
  pub list_files : JsText → Option (List JsText)
  pub find_files : JsText → Option (List JsText)
  pub is_directory : JsText → Option Bool
  pub is_common : JsText → Bool

pub record Folder : Type 0 where
  pub matcher : Trie
  pub repositories : JsMap JsText Repository

-- `disposed` are the repositories that were disposed, and `repositories_set` the folders of the events told.
pub record Service : Type 0 where
  pub folders : JsMap JsText Folder
  pub disposed : List JsText
  pub repositories_set : List JsText

unfoldable pub new : Service
new = record { folders = []; disposed = []; repositories_set = [] }

abbrev pub no_options : GetFileOptions
no_options = record { exclude_git_folder = false; exclude_ignored = false }

abbrev pub repositories_or_none : Option Folder → JsMap JsText Repository
repositories_or_none none = []
repositories_or_none (some f) = f.repositories

abbrev pub matcher_or_new : Option Folder → Trie
matcher_or_new none = empty
matcher_or_new (some f) = f.matcher

unfoldable pub get_repositories_for_workspace : JsText → Service → JsMap JsText Repository
unfolding JsMap.get
get_repositories_for_workspace folder s = repositories_or_none (JsMap.get s.folders folder)

unfoldable pub get_directory_matcher_for_workspace : JsText → Service → Trie
unfolding JsMap.get empty
get_directory_matcher_for_workspace folder s = matcher_or_new (JsMap.get s.folders folder)

abbrev pub keys_of : JsMap JsText Repository → List JsText
keys_of [] = []
keys_of ((uri, r) ∷ rs) = uri ∷ keys_of rs

abbrev pub delete_folder : JsText → Service → Service
delete_folder folder s = record s { folders = JsMap.delete s.folders folder }

-- `#clearRepositoriesForWorkspace`: the entry is deleted, then its repositories are looked up and disposed. The matcher that
-- is disposed is that of the entry.
unfoldable pub clear_repositories_for_workspace : JsText → Service → Service
unfolding JsMap.delete get_repositories_for_workspace
clear_repositories_for_workspace folder s =
    let deleted = delete_folder folder s in
    let repositories = get_repositories_for_workspace folder deleted in
    delete_folder folder (record deleted { disposed = deleted.disposed ++ keys_of repositories })

abbrev pub or_else : Option JsText → Option JsText → Option JsText
or_else none other = other
or_else (some uri) other = some uri

-- `.at(-1)`
unfoldable pub last_of : List JsText → Option JsText
last_of [] = none
last_of (uri ∷ uris) = or_else (last_of uris) (some uri)

module _ (p : Paths) where
  unfoldable pub detect_repositories : JsText → List JsText → List Repository
  unfolding is_git_config_file Repository.new
  detect_repositories folder [] = []
  detect_repositories folder (file ∷ files) =
      let rest = detect_repositories folder files in
      if is_git_config_file file
      then Repository.new folder (p.root_of_config file) file ∷ rest
      else rest

  unfoldable pub add_repository_to_workspace : JsText → Repository → Service → Service
  unfolding JsMap.get JsMap.set add_directory_to_match empty
  add_repository_to_workspace folder r s = record s {
    folders = JsMap.set s.folders folder (record {
      matcher = add_directory_to_match p.decode r.uri (matcher_or_new (JsMap.get s.folders folder));
      repositories = JsMap.set (repositories_or_none (JsMap.get s.folders folder)) r.uri r;
    });
  }

  unfoldable pub add_repositories : JsText → List Repository → Service → Service
  unfolding add_repository_to_workspace
  add_repositories folder [] s = s
  add_repositories folder (r ∷ rs) s =
      add_repositories folder rs (add_repository_to_workspace folder r s)

  unfoldable pub get_repository_uri_for_file : JsText → JsText → Service → Option JsText
  unfolding last_of find_matching_directories get_directory_matcher_for_workspace
  get_repository_uri_for_file file folder s =
      last_of
        (find_matching_directories p.decode file (get_directory_matcher_for_workspace folder s))

  unfoldable pub get_matching_repository : JsText → JsText → Service → Option Repository
  unfolding get_repository_uri_for_file get_repositories_for_workspace
  get_matching_repository file folder s = elim (get_repository_uri_for_file file folder s) [
    | none ↦ none
    | some uri ↦ JsMap.get (get_repositories_for_workspace folder s) uri
  ]

  abbrev pub or_no_files : Option (JsMap JsText JsText) → JsMap JsText JsText
  or_no_files none = []
  or_no_files (some files) = files

  -- One round of `#getFilesByRepositories`
  unfoldable pub add_file_by_repository :
      JsText
      → Service
      → JsText
      → JsMap JsText (JsMap JsText JsText)
      → JsMap JsText (JsMap JsText JsText)
  unfolding get_repository_uri_for_file JsMap.get JsMap.set
  add_file_by_repository folder s file found = elim (get_repository_uri_for_file file folder s) [
    | none ↦ found
    | some uri ↦ JsMap.set found uri (JsMap.set (or_no_files (JsMap.get found uri)) file file)
  ]

  unfoldable pub get_files_by_repositories :
      JsText
      → Service
      → List JsText
      → JsMap JsText (JsMap JsText JsText)
      → JsMap JsText (JsMap JsText JsText)
  unfolding add_file_by_repository
  get_files_by_repositories folder s [] found = found
  get_files_by_repositories folder s (file ∷ files) found =
      get_files_by_repositories folder s files (add_file_by_repository folder s file found)

  module _ (disk : Disk) where
    -- The loop of `#setDirectoryForFile`, from a path on, with at most the given rounds
    unfoldable pub set_directories_from : ℕ → JsText → Repository → Repository
    unfolding starts_with get_directory set_directory
    set_directories_from zero path r = r
    set_directories_from (suc n) path r =
        let uri = disk.path_to_uri path in
        let next = if is_some (get_directory uri no_options r) then r else set_directory p uri r in
        let rest = set_directories_from n (disk.path_dirname path) next in
        if starts_with path (disk.fs_path r.uri) && not (path === disk.fs_path r.uri)
        then rest
        else r

    -- A path has no more directories above it than units.
    unfoldable pub set_directory_for_file : JsText → Repository → Repository
    unfolding set_directories_from
    set_directory_for_file uri r =
        let path = disk.path_dirname (disk.fs_path uri) in set_directories_from (length path) path r

    unfoldable pub set_files : JsMap JsText JsText → Repository → Repository
    unfolding set_file set_directory_for_file
    set_files [] r = r
    set_files ((key, uri) ∷ uris) r = set_files uris (set_directory_for_file uri (set_file p uri r))

    abbrev pub uris_in : JsMap JsText JsText → List JsText
    uris_in [] = []
    uris_in ((key, uri) ∷ uris) = uri ∷ uris_in uris

    abbrev pub with_files : JsMap JsText JsText → Repository → Option Repository → Repository
    with_files uris r none = r
    with_files uris r (some ready) = set_files uris ready

    -- `setupAndAddFiles`
    unfoldable pub setup_and_add_files : JsMap JsText JsText → Repository → Repository
    unfolding setup_git_for_repository set_files
    setup_and_add_files uris r =
        with_files uris r
          (setup_git_for_repository p disk.read_file (disk.list_files r.uri) (uris_in uris) r)

    -- The repositories are objects: what is done to one is seen in the map.
    unfoldable pub update_all :
        JsMap JsText (JsMap JsText JsText) → JsMap JsText Repository → JsMap JsText Repository
    unfolding JsMap.get setup_and_add_files
    update_all found [] = []
    update_all found ((uri, r) ∷ rs) =
        (uri, elim (JsMap.get found uri) [ none ↦ r | some uris ↦ setup_and_add_files uris r ])
        ∷ update_all found rs

    abbrev update_folder :
        JsMap JsText (JsMap JsText JsText) → Option Folder → JsText → Service → Service
    update_folder found none folder s = s
    update_folder found (some f) folder s = record s {
      folders =
          JsMap.set s.folders folder (record f { repositories = update_all found f.repositories });
    }

    unfoldable pub add_files_to_repositories : JsText → List JsText → Service → Service
    unfolding get_files_by_repositories update_all JsMap.get JsMap.set
    add_files_to_repositories folder files s =
        update_folder (get_files_by_repositories folder s files []) (JsMap.get s.folders folder)
          folder s

    -- `#setWorkspaceRepositories`
    unfoldable pub set_workspace_repositories : JsText → List JsText → Service → Service
    unfolding clear_repositories_for_workspace detect_repositories add_repositories
        add_files_to_repositories
    set_workspace_repositories folder files s =
        let cleared = clear_repositories_for_workspace folder s in
        let added = add_repositories folder (detect_repositories folder files) cleared in
        let filled = add_files_to_repositories folder files added in
        record filled { repositories_set = filled.repositories_set ++ folder ∷ [] }
