-- ===== src/Repositories/Branches.antt =====
-- `repository.ts`: how the current and the main branch of a repository are found. What git and the disk answer is a record;
-- `none` means that the call throws.
use khulnasoft_lsp.Base.{
  false, List, [], ◌∷◌, ◌++◌, Option, none, some, find, contains, JsText, text_of, trim,
  without_first, includes, units_key, ◌===◌, ◌≡◌, refl, ap, ◌∙◌, arith,
}

pub record Remote : Type 0 where
  pub remote : JsText
  pub url : JsText

-- `currentBranch`, `resolveRef` of HEAD, `listRemotes`, `listBranches`; by a remote's name, its file HEAD; and by its URL, the
-- HEAD of `getRemoteRepositoryInfo`.
pub record Git : Type 0 where
  pub current_branch : Option (Option JsText)
  pub head_ref : Option JsText
  pub remotes : Option (List Remote)
  pub branches : Option (List JsText)
  pub read_head : JsText → Option JsText
  pub remote_head : JsText → Option (Option JsText)

abbrev or_first : Option Remote → List Remote → Option Remote
or_first (some found) remotes = some found
or_first none [] = none
or_first none (remote ∷ remotes) = some remote

-- The remote `origin`, else the first
unfoldable pub origin_of : List Remote → Option Remote
unfolding find
origin_of remotes = or_first (find (λ (r : Remote). r.remote === text_of "origin") remotes) remotes

-- What is not undefined and not empty
abbrev pub if_named : Option JsText → Option JsText
if_named none = none
if_named (some []) = none
if_named (some (u ∷ name)) = some (u ∷ name)

abbrev pub or_else : Option JsText → Option JsText → Option JsText
or_else (some name) other = some name
or_else none other = other

unfoldable pub get_main_branch_from_ref : Git → JsText → Option JsText
unfolding trim without_first
get_main_branch_from_ref git origin = elim (git.read_head origin) [
  | none ↦ none
  | some content ↦
      some (without_first (text_of "ref: refs/remotes/" ++ (origin ++ text_of "/")) (trim content))
]

abbrev drop_head : Option (Option JsText) → Option JsText
drop_head none = none
drop_head (some none) = none
drop_head (some (some head)) = some (without_first (text_of "refs/head/") head)

unfoldable pub get_main_branch_from_remote_repo_info : Git → JsText → Option JsText
unfolding without_first
get_main_branch_from_remote_repo_info git url = drop_head (git.remote_head url)

abbrev pub main_branch_names : List JsText
main_branch_names = text_of "main" ∷ text_of "master" ∷ text_of "trunk" ∷ text_of "development" ∷ []

unfoldable pub try_get_main_branch_from_local_branches : List JsText → Option JsText
unfolding find contains
try_get_main_branch_from_local_branches branches = find (contains branches) main_branch_names

abbrev pub from_remote : Git → Option Remote → Option JsText
from_remote git none = none
from_remote git (some r) =
    or_else (if_named (get_main_branch_from_ref git r.remote))
      (if_named (get_main_branch_from_remote_repo_info git r.url))

abbrev pub or_main : Option JsText → JsText
or_main none = text_of "main"
or_main (some name) = name

unfoldable pub from_branches : Option (List JsText) → Option JsText
unfolding try_get_main_branch_from_local_branches
from_branches none = none
from_branches (some branches) = try_get_main_branch_from_local_branches branches

abbrev pub remote_of : Option (List Remote) → Option Remote
remote_of none = none
remote_of (some remotes) = origin_of remotes

abbrev if_listed : Option (List Remote) → Option JsText → Option JsText
if_listed none found = none
if_listed (some remotes) found = found

-- An error of `listRemotes` or of `listBranches` is caught.
unfoldable pub get_main_branch : Git → JsText
unfolding origin_of get_main_branch_from_ref get_main_branch_from_remote_repo_info from_branches
get_main_branch git = or_main (
    or_else (from_remote git (remote_of git.remotes))
      (if_listed git.remotes (from_branches git.branches)))

unfoldable pub get_current_branch : Git → Option JsText
unfolding get_main_branch
get_current_branch git = elim git.current_branch [
  | none ↦ none
  | some none ↦ some (get_main_branch git)
  | some (some branch) ↦ some branch
]

unfoldable pub get_current_commit : Git → JsText
unfolding get_main_branch without_first
get_current_commit git = elim git.head_ref [
  | none ↦ get_main_branch git
  | some head ↦ without_first (text_of "refs/heads/") head
]

without_first_absent : (p t : JsText) → includes t p ≡ false → without_first p t ≡ t
unfolding without_first includes
without_first_absent p [] h = refl
without_first_absent p (u ∷ t) h = ground (arith, without_first_absent p t)

-- If the main branch has to be asked of the remote, whose HEAD is a ref that does not contain 'refs/head/', the whole ref
-- is given as the name of the branch.
pub get_main_branch_whole :
    (git : Git) (r : Remote) (head : JsText)
    → remote_of git.remotes ≡ some r
    → git.read_head r.remote ≡ none
    → git.remote_head r.url ≡ some (some (text_of "refs/heads/" ++ head))
    → includes (text_of "refs/heads/" ++ head) (text_of "refs/head/") ≡ false
    → get_main_branch git ≡ text_of "refs/heads/" ++ head
unfolding get_main_branch
get_main_branch_whole git r head e n h a =
    ap (λ (o : Option Remote). or_main (or_else (from_remote git o) (local git))) e
    ∙ (ap
          (λ (o : Option JsText). or_main (
            or_else
              (or_else (if_named o) (if_named (get_main_branch_from_remote_repo_info git r.url)))
              (local git)))
          (no_ref git r.remote n)
        ∙ ap (λ (o : Option JsText). or_main (or_else (or_else none (if_named o)) (local git)))
            (ap drop_head h
              ∙ ap some
                  (without_first_absent (text_of "refs/head/") (text_of "refs/heads/" ++ head) a)))
  where
    local : Git → Option JsText
    local git = if_listed git.remotes (from_branches git.branches)

    no_ref :
        (git : Git) (origin : JsText)
        → git.read_head origin ≡ none
        → get_main_branch_from_ref git origin ≡ none
    no_ref git origin m = rw (m, get_main_branch_from_ref) refl
