-- ===== src/Repositories/Repository.antt =====
-- `repository.ts`: the files and directories of a repository. A URI is its text. What reads from the disk or from git is a
-- parameter; `none` means that it throws.
pub mod Removing
use khulnasoft_lsp.Base.{
  ℕ, Bool, true, false, not, List, [], ◌∷◌, ◌++◌, map, Option, none, some, ◌&&◌, ◌||◌,
  if◌then◌else◌, filter, contains, add, JsText, text_of, starts_with, ends_with, includes,
  units_key, ◌===◌,
}
use khulnasoft_lsp.Base.JsMap
use khulnasoft_lsp.Base.JsMap.{JsMap}
use khulnasoft_lsp.Repositories.Ignoring.{
  Paths, GitIgnoreManager, is_ignored, add_gitignore, add_exclude_file,
}
use khulnasoft_lsp.Repositories.Ignoring

-- `RepositoryFile`, without `dirUri`, and so `RepositoryDirectory` too.
pub record RepositoryFile : Type 0 where
  pub uri : JsText
  pub repository_uri : JsText
  pub ignored : Bool
  pub workspace_folder : JsText

pub record GetFileOptions : Type 0 where
  pub exclude_git_folder : Bool
  pub exclude_ignored : Bool

pub record GitFiles : Type 0 where
  pub ignore_files : List (JsText × JsText)
  pub exclude_file : Option JsText
  pub tracked_files : List JsText

pub record Repository : Type 0 where
  pub workspace_folder : JsText
  pub uri : JsText
  pub config_file_uri : JsText
  pub files : JsMap JsText RepositoryFile
  pub directories : JsMap JsText RepositoryFile
  pub ignore_manager : Option GitIgnoreManager
  pub git_files : GitFiles

unfoldable pub new : JsText → JsText → JsText → Repository
new folder uri config = record {
  workspace_folder = folder;
  uri = uri;
  config_file_uri = config;
  files = [];
  directories = [];
  ignore_manager = none;
  git_files = record { ignore_files = []; exclude_file = none; tracked_files = [] };
}

unfoldable pub is_git_ignore_file : JsText → Bool
unfolding ends_with
is_git_ignore_file uri = ends_with uri (text_of ".gitignore")

unfoldable pub is_git_config_file : JsText → Bool
unfolding ends_with
is_git_config_file uri =
    ends_with uri (text_of "/.git/config") || ends_with uri (text_of "\\.git\\config")

unfoldable pub is_in_git_folder : JsText → Bool
unfolding includes
is_in_git_folder uri = includes uri (text_of "/.git/") || includes uri (text_of "\\.git\\")

unfoldable pub is_git_exclude_file : JsText → Bool
unfolding includes
is_git_exclude_file uri =
    includes uri (text_of "/.git/info/exclude") || includes uri (text_of "\\.git\\info\\exclude")

abbrev pub ignored_or_false : Paths → Option GitIgnoreManager → JsText → Bool
ignored_or_false p none uri = false
ignored_or_false p (some m) uri = is_ignored p uri m

-- `#filter`
unfoldable pub passes : GetFileOptions → Repository → RepositoryFile → Bool
unfolding contains is_in_git_folder
passes options r file =
    if options.exclude_git_folder && is_in_git_folder file.uri
    then false
    else if contains r.git_files.tracked_files file.uri
    then true
    else if options.exclude_ignored && file.ignored
    then false
    else true

abbrev if_passes : GetFileOptions → Repository → Option RepositoryFile → Option RepositoryFile
if_passes options r none = none
if_passes options r (some file) = if passes options r file then some file else none

unfoldable pub get_file : JsText → GetFileOptions → Repository → Option RepositoryFile
unfolding JsMap.get passes
get_file uri options r = if_passes options r (JsMap.get r.files uri)

unfoldable pub get_directory : JsText → GetFileOptions → Repository → Option RepositoryFile
unfolding JsMap.get passes
get_directory uri options r = if_passes options r (JsMap.get r.directories uri)

unfoldable pub remove_file : JsText → Repository → Repository
unfolding JsMap.delete
remove_file uri r = record r { files = JsMap.delete r.files uri }

-- The files whose URI begins with the text of the directory's
unfoldable pub files_under : JsText → JsMap JsText RepositoryFile → List RepositoryFile
unfolding starts_with
files_under dir [] = []
files_under dir ((uri, file) ∷ files) =
    if starts_with uri dir then file ∷ files_under dir files else files_under dir files

unfoldable pub keys_under : JsText → JsMap JsText RepositoryFile → List JsText
unfolding starts_with
keys_under dir [] = []
keys_under dir ((uri, file) ∷ files) =
    if starts_with uri dir then uri ∷ keys_under dir files else keys_under dir files

unfoldable pub delete_all : List JsText → JsMap JsText RepositoryFile → JsMap JsText RepositoryFile
unfolding JsMap.delete
delete_all [] files = files
delete_all (uri ∷ uris) files = delete_all uris (JsMap.delete files uri)

abbrev pub uris_of : List RepositoryFile → List JsText
uris_of [] = []
uris_of (file ∷ files) = file.uri ∷ uris_of files

unfoldable pub remove_files_under_directory : JsText → Repository → Repository × List RepositoryFile
unfolding files_under keys_under delete_all
remove_files_under_directory dir r =
    let removed = files_under dir r.files in
    (
      record r {
        files = delete_all (uris_of removed) r.files;
        directories = delete_all (keys_under dir r.directories) r.directories;
      },
      removed,
    )

abbrev values_of : JsMap JsText RepositoryFile → List RepositoryFile
values_of [] = []
values_of ((uri, file) ∷ files) = file ∷ values_of files

unfoldable pub get_current_tree_files : GetFileOptions → Repository → List RepositoryFile
unfolding filter passes
get_current_tree_files options r = filter (passes options r) (values_of r.files)

abbrev pub ignore_files_of : List JsText → List JsText
ignore_files_of files = filter is_git_ignore_file files

-- The last exclude file that is not a file of patterns
abbrev pub exclude_file_of : Option JsText → List JsText → Option JsText
exclude_file_of found [] = found
exclude_file_of found (file ∷ files) =
    exclude_file_of
      (if is_git_ignore_file file
        then found
        else if is_git_exclude_file file
        then some file
        else found)
      files

unfoldable pub read_all : (JsText → Option JsText) → List JsText → Option (List (JsText × JsText))
read_all read_file [] = some []
read_all read_file (file ∷ files) = elim (read_file file) [
  | none ↦ none
  | some content ↦ elim (read_all read_file files) [
    | none ↦ none
    | some rest ↦ some ((file, content) ∷ rest)
  ]
]

-- A `Set` of texts
unfoldable pub set_of : List JsText → List JsText → List JsText
unfolding add contains
set_of known [] = known
set_of known (uri ∷ uris) = set_of (add known uri) uris

-- `#getGitFiles`, with `#getTrackedFiles`
unfoldable pub get_git_files :
    (JsText → Option JsText) → Option (List JsText) → List JsText → Option GitFiles
unfolding read_all set_of filter is_git_ignore_file is_git_exclude_file
get_git_files read_file tracked files = elim (read_all read_file (ignore_files_of files)) [
  | none ↦ none
  | some contents ↦ elim tracked [
    | none ↦ none
    | some uris ↦ some (record {
      ignore_files = contents;
      exclude_file = exclude_file_of none files;
      tracked_files = set_of [] uris;
    })
  ]
]

-- `refreshTrackedFiles`, once the delay is over
unfoldable pub refresh_tracked_files : Option (List JsText) → Repository → Repository
unfolding set_of
refresh_tracked_files none r = r
refresh_tracked_files (some uris) r = record r {
  git_files = record r.git_files { tracked_files = set_of [] uris };
}

module _ (p : Paths) where
  unfoldable pub is_file_ignored : JsText → Repository → Bool
  unfolding contains
  is_file_ignored uri r =
      if contains r.git_files.tracked_files uri
      then false
      else ignored_or_false p r.ignore_manager uri

  unfoldable pub is_directory_ignored : JsText → Repository → Bool
  is_directory_ignored uri r = ignored_or_false p r.ignore_manager (p.all_below uri)

  unfoldable pub set_file : JsText → Repository → Repository
  unfolding is_file_ignored JsMap.set
  set_file uri r = record r {
    files = JsMap.set r.files uri (record {
      uri = uri;
      repository_uri = r.uri;
      ignored = is_file_ignored uri r;
      workspace_folder = r.workspace_folder;
    });
  }

  unfoldable pub set_directory : JsText → Repository → Repository
  unfolding is_directory_ignored JsMap.set
  set_directory uri r = record r {
    directories = JsMap.set r.directories uri (record {
      uri = uri;
      repository_uri = r.uri;
      ignored = is_directory_ignored uri r;
      workspace_folder = r.workspace_folder;
    });
  }

  unfoldable pub add_gitignores : List (JsText × JsText) → GitIgnoreManager → GitIgnoreManager
  unfolding add_gitignore
  add_gitignores [] m = m
  add_gitignores ((uri, content) ∷ files) m = add_gitignores files (add_gitignore p uri content m)

  -- `setupGitForRepository`; `none` means that it gives an error.
  unfoldable pub setup_git_for_repository :
      (JsText → Option JsText) → Option (List JsText) → List JsText → Repository → Option Repository
  unfolding get_git_files add_gitignores add_exclude_file Ignoring.new
  setup_git_for_repository read_file tracked files r =
      elim (get_git_files read_file tracked files) [
        | none ↦ none
        | some git_files ↦
            let m = add_gitignores git_files.ignore_files (Ignoring.new r.uri) in
            elim git_files.exclude_file [
              | none ↦ some (record r { ignore_manager = some m; git_files = git_files })
              | some file ↦ elim (read_file file) [
                | none ↦ none
                | some content ↦ some (record r {
                  ignore_manager = some (add_exclude_file content m);
                  git_files = git_files;
                })
              ]
            ]
      ]

abbrev dispose_manager : Option GitIgnoreManager → Option GitIgnoreManager
dispose_manager none = none
dispose_manager (some m) = some (Ignoring.dispose m)

unfoldable pub dispose : Repository → Repository
dispose r = record r { ignore_manager = dispose_manager r.ignore_manager; files = [] }
