-- ===== src/Repositories/Ignoring.antt =====
-- `git_ignore_manager.ts`. The functions of vscode-uri and path, and the package ignore, are parameters.
pub mod Deciding
use khulnasoft_lsp.Base.{
  ℕ, Bool, true, false, not, List, [], ◌∷◌, Option, none, some, if◌then◌else◌, JsText, text_of,
  units_key, ◌===◌,
}
use khulnasoft_lsp.Base.JsMap
use khulnasoft_lsp.Base.JsMap.{JsMap}
use khulnasoft_lsp.Repositories.Matcher.{
  Trie, empty, split_path, add_path, find_matching_directories, add_directory_to_match,
}

-- What `test` of the package ignore gives.
pub record TestResult : Type 0 where
  pub ignored : Bool
  pub unignored : Bool

-- On texts of URIs: `decodeURIComponent`, `dirname`, `basename`, the field `path`, `getRelativePath`, what a directory is
-- joined to with '**', and the root for a git config; and with the content of a file of patterns, `test` and `ignores` of a
-- relative path.
pub record Paths : Type 0 where
  pub decode : JsText → JsText
  pub dirname : JsText → JsText
  pub basename : JsText → JsText
  pub path : JsText → JsText
  pub relative : JsText → JsText → JsText
  pub all_below : JsText → JsText
  pub root_of_config : JsText → JsText
  pub test : JsText → JsText → TestResult
  pub ignores : JsText → JsText → Bool

pub record GitIgnoreManager : Type 0 where
  pub root_uri : JsText
  pub matcher : Trie
  pub exclude_file_ignore : Option JsText
  pub ignore_map : JsMap JsText JsText

unfoldable pub new : JsText → GitIgnoreManager
new root = record { root_uri = root; matcher = empty; exclude_file_ignore = none; ignore_map = [] }

unfoldable pub add_exclude_file : JsText → GitIgnoreManager → GitIgnoreManager
add_exclude_file content m = record m { exclude_file_ignore = some content }

abbrev pub ignored_by_exclude : Paths → Option JsText → JsText → Bool
ignored_by_exclude p none relative = false
ignored_by_exclude p (some content) relative = p.ignores content relative

module _ (p : Paths) where
  unfoldable pub add_gitignore : JsText → JsText → GitIgnoreManager → GitIgnoreManager
  unfolding JsMap.set
  add_gitignore uri content m = record m {
    matcher = add_directory_to_match p.decode (p.dirname uri) m.matcher;
    ignore_map = JsMap.set m.ignore_map (p.dirname uri) content;
  }

  abbrev pub next_status : Bool → TestResult → Bool
  next_status status result = if status then not result.unignored else result.ignored

  -- The loop over the matching directories, with the status so far
  unfoldable pub ignored_by : GitIgnoreManager → JsText → Bool → List JsText → Bool
  unfolding JsMap.get
  ignored_by m file status [] = status
  ignored_by m file status (dir ∷ dirs) =
      ignored_by m file
        (elim (JsMap.get m.ignore_map dir) [
          | none ↦ status
          | some content ↦ next_status status (p.test content (p.relative dir file))
        ])
        dirs

  unfoldable pub is_ignored : JsText → GitIgnoreManager → Bool
  unfolding ignored_by find_matching_directories
  is_ignored file m =
      if p.basename file === text_of ".git"
      then true
      else if p.path file === text_of "."
      then false
      else ignored_by m file
          (ignored_by_exclude p m.exclude_file_ignore (p.relative m.root_uri file))
          (find_matching_directories p.decode file m.matcher)

-- `dispose`
unfoldable pub dispose : GitIgnoreManager → GitIgnoreManager
dispose m = record m { matcher = empty }
