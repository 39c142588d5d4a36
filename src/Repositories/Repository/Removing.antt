-- ===== src/Repositories/Repository/Removing.antt =====
-- What is removed with a directory.
use khulnasoft_lsp.Base.{
  List, [], ◌∷◌, none, ◌&&◌, if◌then◌else◌, contains, JsText, starts_with, units_key, ◌===◌,
  ===_iff, is_some, Bool-cases, Option-cases, inl, inr, ◌≡◌, refl, ◌∙◌, arith,
}
use khulnasoft_lsp.Base.JsMap
use khulnasoft_lsp.Base.JsMap.{JsMap, get-delete}
use khulnasoft_lsp.Repositories.Repository.{
  RepositoryFile, Repository, files_under, keys_under, delete_all, uris_of,
  remove_files_under_directory,
}

-- Each file is kept under its URI.
abbrev pub IsKeyed : JsMap JsText RepositoryFile → Type 0
IsKeyed [] = Unit
IsKeyed ((uri, file) ∷ files) = (uri ≡ file.uri) × IsKeyed files

get-delete_all :
    (uris : List JsText) (files : JsMap JsText RepositoryFile) (k : JsText)
    → JsMap.get (delete_all uris files) k ≡ (if contains uris k then none else JsMap.get files k)
unfolding delete_all contains
get-delete_all [] files k = refl
get-delete_all (uri ∷ uris) files k =
    get-delete_all uris (JsMap.delete files uri) k ∙ ground (arith, get-delete files uri k)

contains-keys_under :
    (dir : JsText) (files : JsMap JsText RepositoryFile) (k : JsText)
    → contains (keys_under dir files) k ≡ (is_some (JsMap.get files k) && starts_with k dir)
unfolding contains keys_under JsMap.get
contains-keys_under dir [] k = refl
contains-keys_under dir ((uri, file) ∷ files) k = elim (Bool-cases (uri === k)) [
  | inl e ↦
      let s : uri ≡ k = (===_iff uri k).0 e in
      rw s (ground (arith, contains-keys_under dir files k, ===_iff k k))
  | inr e ↦ ground (arith, contains-keys_under dir files k)
]

uris_of-files_under :
    (dir : JsText) (files : JsMap JsText RepositoryFile)
    → IsKeyed files
    → uris_of (files_under dir files) ≡ keys_under dir files
unfolding files_under keys_under
uris_of-files_under dir [] h = refl
uris_of-files_under dir ((uri, file) ∷ files) (e, h) =
    ground (arith, uris_of-files_under dir files h)

get-keys_under :
    (dir : JsText) (files : JsMap JsText RepositoryFile) (k : JsText)
    → JsMap.get (delete_all (keys_under dir files) files) k
      ≡ (if starts_with k dir then none else JsMap.get files k)
get-keys_under dir files k =
    get-delete_all (keys_under dir files) files k ∙ elim (Option-cases (JsMap.get files k)) [
      | inl n ↦ ground (arith, contains-keys_under dir files k)
      | inr (f, e) ↦ ground (arith, contains-keys_under dir files k)
    ]

-- After the removal of what is under a directory, a file or a directory is found exactly if it was and its URI does not begin with
-- the text of the directory's, which that of a sibling with a longer name does too.
pub remove_files_under_directory-get :
    (dir k : JsText) (r : Repository)
    → IsKeyed r.files
    → (JsMap.get (remove_files_under_directory dir r).0.files k
        ≡ (if starts_with k dir then none else JsMap.get r.files k))
      × (JsMap.get (remove_files_under_directory dir r).0.directories k
          ≡ (if starts_with k dir then none else JsMap.get r.directories k))
unfolding remove_files_under_directory
remove_files_under_directory-get dir k r h = (
  rw (uris_of-files_under dir r.files h) (get-keys_under dir r.files k),
  get-keys_under dir r.directories k,
)
