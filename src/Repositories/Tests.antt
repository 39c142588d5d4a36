-- ===== src/Repositories/Tests.antt =====
-- The theorems on the repositories "/w/a" and "/w/a/b".
use khulnasoft_lsp.Base.{
  true, false, List, [], ◌∷◌, ◌++◌, none, some, JsText, text_of, starts_with, units_key, ◌≡◌, ◌≢◌,
  refl,
}
use khulnasoft_lsp.Base.JsMap
use khulnasoft_lsp.Repositories.Matcher.{find_matching_directories, add_directory_to_match}
use khulnasoft_lsp.Repositories.Matcher.Matching.{
  add_all, matches_by, last_with, parts_of, find_matching_directories-add_all,
}
use khulnasoft_lsp.Repositories.Ignoring.{
  Paths, GitIgnoreManager, new, ignored_by_exclude, is_ignored, add_gitignore,
}
use khulnasoft_lsp.Repositories.Ignoring.Deciding.{IsDefinite, IsDecided, is_ignored-IsDecided}
use khulnasoft_lsp.Repositories.Repository.{Repository, set_file, remove_files_under_directory}
use khulnasoft_lsp.Repositories.Repository
use khulnasoft_lsp.Repositories.Branches.{Git, Remote}
use khulnasoft_lsp.Repositories.Service.{
  Disk, Service, get_repository_uri_for_file, set_workspace_repositories,
}
use khulnasoft_lsp.Repositories.Service
use khulnasoft_lsp.Repositories.Service.Disposing.{run, run-disposed}
use khulnasoft_lsp.Repositories.Service.Deepest.{
  deepest, roots_from, set_workspace_repositories-deepest,
}

abbrev same_text : JsText → JsText
same_text text = text

abbrev a_root : JsText
a_root = text_of "/w/a"

abbrev b_root : JsText
b_root = text_of "/w/a/b"

abbrev file : JsText
file = text_of "/w/a/b/c"

find_matching_directories-add_all_example :
    find_matching_directories same_text file (add_all same_text (b_root ∷ a_root ∷ []))
    ≡ matches_by (last_with same_text (b_root ∷ a_root ∷ [])) (parts_of same_text file)
find_matching_directories-add_all_example =
    find_matching_directories-add_all same_text (b_root ∷ a_root ∷ []) file

both_match :
    find_matching_directories same_text file (add_all same_text (b_root ∷ a_root ∷ []))
    ≡ a_root ∷ b_root ∷ []
unfolding find_matching_directories add_all add_directory_to_match
both_match = refl

-- Every path is in "/w/a"; a file of patterns ignores all if it says anything.
abbrev paths : Paths
paths = record {
  decode = same_text;
  dirname = λ uri. a_root;
  basename = λ uri. text_of "c";
  path = λ uri. uri;
  relative = λ dir uri. uri;
  all_below = λ uri. uri ++ text_of "/**";
  root_of_config = λ uri. a_root;
  test = λ content path. record { ignored = true; unignored = false };
  ignores = λ content path. false;
}

abbrev patterns : GitIgnoreManager
patterns = add_gitignore paths (text_of "/w/a/.gitignore") (text_of "*") (new a_root)

paths-IsDefinite : IsDefinite paths
paths-IsDefinite content path = refl

is_ignored-IsDecided_example :
    (paths.basename file ≡ text_of ".git" → is_ignored paths file patterns ≡ true)
    × (paths.basename file ≢ text_of ".git"
        → paths.path file ≡ text_of "."
        → is_ignored paths file patterns ≡ false)
    × (paths.basename file ≢ text_of ".git"
        → paths.path file ≢ text_of "."
        → IsDecided paths patterns file
            (ignored_by_exclude paths patterns.exclude_file_ignore
              (paths.relative patterns.root_uri file))
            (find_matching_directories paths.decode file patterns.matcher)
            (is_ignored paths file patterns))
is_ignored-IsDecided_example = is_ignored-IsDecided paths patterns file paths-IsDefinite

-- The sibling "/w/a2" is removed with "/w/a".
abbrev sibling : JsText
sibling = text_of "/w/a2"

abbrev repository : Repository
repository =
    set_file paths sibling (Repository.new (text_of "/w") (text_of "/w") (text_of "/w/.git/config"))

sibling_removed : starts_with sibling a_root ≡ true
unfolding starts_with
sibling_removed = refl

abbrev remote : Remote
remote = record { remote = text_of "origin"; url = text_of "u" }

abbrev git : Git
git = record {
  current_branch = none;
  head_ref = none;
  remotes = some (remote ∷ []);
  branches = some [];
  read_head = λ name. none;
  remote_head = λ url. some (some (text_of "refs/heads/" ++ text_of "main"));
}

abbrev disk : Disk
disk = record {
  fs_path = same_text;
  path_dirname = λ path. a_root;
  path_to_uri = same_text;
  read_file = λ uri. some [];
  list_files = λ uri. some [];
  find_files = λ uri. some [];
  is_directory = λ uri. some false;
  is_common = λ uri. false;
}

abbrev files : List JsText
files = text_of "/w/a/.git/config" ∷ file ∷ []

run-disposed_example :
    (run paths disk ((text_of "/w", files) ∷ (text_of "/w", files) ∷ [])).disposed ≡ []
run-disposed_example = run-disposed paths disk ((text_of "/w", files) ∷ (text_of "/w", files) ∷ [])

set_workspace_repositories-deepest_example :
    get_repository_uri_for_file paths file
      (text_of "/w")
      (set_workspace_repositories paths disk (text_of "/w") files Service.new)
    ≡ deepest (last_with paths.decode (roots_from paths [] files)) (parts_of paths.decode file)
set_workspace_repositories-deepest_example =
    set_workspace_repositories-deepest paths disk (text_of "/w") files Service.new file

-- A folder with one repository, "/w/a", which has no files.
abbrev a_repository : Repository
a_repository = Repository.new (text_of "/w") a_root (text_of "/w/a/.git/config")

abbrev owned : Service
owned = record {
  folders =
      (
        text_of "/w",
        record {
          matcher = add_all same_text (a_root ∷ []);
          repositories = (a_root, a_repository) ∷ [];
        },
      )
      ∷ [];
  disposed = [];
  repositories_set = [];
}
