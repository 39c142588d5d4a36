-- ===== src/Repositories/Service/Events.antt =====
-- `repository_service.ts`: what an event of a file does. The tracked files are read again later, once the delay of the
-- debounced call is over, which is a step of the repository (`refresh_tracked_files`): the call, though awaited, returns at once.
pub mod Changing
use khulnasoft_lsp.Base.{
  Bool, true, false, List, [], ◌∷◌, Option, none, some, ◌||◌, if◌then◌else◌, any, is_some, JsText,
  units_key,
}
use khulnasoft_lsp.Base.JsMap
use khulnasoft_lsp.Repositories.Ignoring.{Paths}
use khulnasoft_lsp.Repositories.Repository.{
  RepositoryFile, Repository, is_git_config_file, is_git_ignore_file, set_file, set_directory,
  remove_file, get_directory, remove_files_under_directory,
}
use khulnasoft_lsp.Repositories.Service.{
  Disk, Folder, Service, no_options, get_repositories_for_workspace, get_matching_repository,
  set_directory_for_file, set_workspace_repositories,
}

pub data FileChangeType : Type 0 where
  created changed deleted : FileChangeType

-- A repository is an object of the map of its folder.
abbrev with_repository : JsText → Repository → Option Folder → Service → Service
with_repository folder r none s = s
with_repository folder r (some f) s = record s {
  folders =
      JsMap.set s.folders folder (record f { repositories = JsMap.set f.repositories r.uri r });
}

unfoldable pub put_repository : JsText → Repository → Service → Service
unfolding JsMap.get JsMap.set
put_repository folder r s = with_repository folder r (JsMap.get s.folders folder) s

abbrev pub is_git_related : RepositoryFile → Bool
is_git_related file = is_git_config_file file.uri || is_git_ignore_file file.uri

module _ (p : Paths) (disk : Disk) (folder : JsText) where
  -- `#handleWorkspaceFolderStateChange`
  unfoldable pub handle_workspace_folder_state_change : Service → Service
  unfolding set_workspace_repositories
  handle_workspace_folder_state_change s = elim (disk.find_files folder) [
    | none ↦ s
    | some files ↦ set_workspace_repositories p disk folder files s
  ]

  -- A file that is new or changed
  unfoldable pub store : JsText → Repository → Repository
  unfolding set_file set_directory_for_file
  store uri r = set_directory_for_file p disk uri (set_file p uri r)

  -- `#deleteFilesForDirectory`, in the repository of the directory
  unfoldable pub delete_files_for_directory : JsText → Repository → Service → Service
  unfolding remove_files_under_directory put_repository handle_workspace_folder_state_change any
  delete_files_for_directory uri r s =
      let (left, removed) = remove_files_under_directory uri r in
      let next = put_repository folder left s in
      if any is_git_related removed then handle_workspace_folder_state_change next else next

  -- What is deleted was a directory if it is one of the repository.
  unfoldable pub handle_deleted : JsText → Repository → Service → Service
  unfolding get_directory delete_files_for_directory remove_file put_repository
  handle_deleted uri r s =
      if is_some (get_directory uri no_options r)
      then delete_files_for_directory uri r s
      else put_repository folder (remove_file uri r) s

  -- With what is done if a directory was created
  unfoldable pub handle_created :
      (JsText → Service → Service) → JsText → Repository → Service → Service
  unfolding store put_repository
  handle_created add_directory uri r s = elim (disk.is_directory uri) [
    | none ↦ s
    | some true ↦ add_directory uri s
    | some false ↦ put_repository folder (store uri r) s
  ]

  unfoldable pub handle_change :
      (JsText → Service → Service) → FileChangeType → JsText → Repository → Service → Service
  unfolding handle_created handle_deleted store put_repository
  handle_change add_directory created uri r s = handle_created add_directory uri r s
  handle_change add_directory changed uri r s = put_repository folder (store uri r) s
  handle_change add_directory deleted uri r s = handle_deleted uri r s

  unfoldable pub handle_in_repository :
      (JsText → Service → Service) → FileChangeType → JsText → Repository → Service → Service
  unfolding is_git_config_file is_git_ignore_file handle_workspace_folder_state_change handle_change
      JsMap.has
  handle_in_repository add_directory type uri r s =
      if is_git_config_file uri || is_git_ignore_file uri
      then handle_workspace_folder_state_change s
      else if JsMap.has (get_repositories_for_workspace folder s) uri
      then handle_workspace_folder_state_change s
      else handle_change add_directory type uri r s

  unfoldable pub handle_with :
      (JsText → Service → Service) → FileChangeType → JsText → Service → Service
  unfolding get_matching_repository handle_in_repository
  handle_with add_directory type uri s =
      if disk.is_common uri then s else elim (get_matching_repository p uri folder s) [
        | none ↦ s
        | some r ↦ handle_in_repository add_directory type uri r s
      ]

  -- The files of a directory, as if each was created; the walker gives no directories.
  unfoldable pub add_each : List JsText → Service → Service
  unfolding handle_with
  add_each [] s = s
  add_each (uri ∷ uris) s = add_each uris (handle_with (λ dir t. t) created uri s)

  unfoldable pub add_directory_itself : JsText → Service → Service
  unfolding get_matching_repository put_repository set_directory
  add_directory_itself uri s = elim (get_matching_repository p uri folder s) [
    | none ↦ s
    | some r ↦ put_repository folder (set_directory p uri r) s
  ]

  -- `#addFilesForDirectory`
  unfoldable pub add_files_for_directory : JsText → Service → Service
  unfolding add_each add_directory_itself
  add_files_for_directory uri s = elim (disk.find_files uri) [
    | none ↦ s
    | some files ↦ add_directory_itself uri (add_each files s)
  ]

  -- `#handleWorkspaceFileUpdate`
  unfoldable pub handle_workspace_file_update : FileChangeType → JsText → Service → Service
  unfolding handle_with add_files_for_directory
  handle_workspace_file_update = handle_with add_files_for_directory
