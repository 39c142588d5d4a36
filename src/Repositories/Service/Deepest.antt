-- ===== src/Repositories/Service/Deepest.antt =====
-- The repository that is found for a file.
use khulnasoft_lsp.Base.{
  List, [], ◌∷◌, ◌++◌, Option, none, some, if◌then◌else◌, Bool-cases, inl, inr, JsText, units_key,
  ◌≡◌, refl, ap, sym, ◌∙◌, arith,
}
use khulnasoft_lsp.Base.JsMap
use khulnasoft_lsp.Base.JsMap.{JsMap, get-delete_self, get-set_self}
use khulnasoft_lsp.Repositories.Ignoring.{Paths}
use khulnasoft_lsp.Repositories.Matcher.{Trie, find_matching_directories, add_directory_to_match}
use khulnasoft_lsp.Repositories.Matcher.Matching.{
  at_most_one, matches_by, parts_of, last_with, add_all, find_matching_directories-add_all,
}
use khulnasoft_lsp.Repositories.Repository.{Repository, is_git_config_file}
use khulnasoft_lsp.Repositories.Repository
use khulnasoft_lsp.Repositories.Service.{
  Disk, Folder, Service, matcher_or_new, get_directory_matcher_for_workspace,
  clear_repositories_for_workspace, last_of, or_else, detect_repositories,
  add_repository_to_workspace, add_repositories, get_repository_uri_for_file, update_folder,
  get_files_by_repositories, add_files_to_repositories, set_workspace_repositories,
}

-- What a lookup gives at the longest beginning of a path at which it gives something
abbrev pub deepest : (List JsText → Option JsText) → List JsText → Option JsText
deepest look [] = none
deepest look (part ∷ parts) =
    or_else (deepest (λ (q : List JsText). look (part ∷ q)) parts) (look (part ∷ []))

last_of-append :
    (o : Option JsText) (uris : List JsText)
    → last_of (at_most_one o ++ uris) ≡ or_else (last_of uris) o
unfolding last_of
last_of-append (some uri) uris = refl
last_of-append none uris = ground arith

last_of-matches_by :
    (look : List JsText → Option JsText) (parts : List JsText)
    → last_of (matches_by look parts) ≡ deepest look parts
unfolding last_of
last_of-matches_by look [] = refl
last_of-matches_by look (part ∷ parts) =
    last_of-append (look (part ∷ [])) (matches_by (λ (q : List JsText). look (part ∷ q)) parts)
    ∙ ap (λ (o : Option JsText). or_else o (look (part ∷ [])))
        (last_of-matches_by (λ (q : List JsText). look (part ∷ q)) parts)

module _ (p : Paths) where
  -- The roots of the repositories for the git configs among the files, the last first, before some others
  abbrev pub roots_from : List JsText → List JsText → List JsText
  roots_from roots [] = roots
  roots_from roots (file ∷ files) =
      roots_from (if is_git_config_file file then p.root_of_config file ∷ roots else roots) files

  matcher-add :
      (folder : JsText) (r : Repository) (s : Service)
      → get_directory_matcher_for_workspace folder (add_repository_to_workspace p folder r s)
        ≡ add_directory_to_match p.decode r.uri (get_directory_matcher_for_workspace folder s)
  unfolding get_directory_matcher_for_workspace add_repository_to_workspace
  matcher-add folder r s = ap matcher_or_new (get-set_self s.folders folder _)

  matcher-add_repositories :
      (folder : JsText) (files roots : List JsText) (s : Service)
      → get_directory_matcher_for_workspace folder s ≡ add_all p.decode roots
      → get_directory_matcher_for_workspace folder
          (add_repositories p folder (detect_repositories p folder files) s)
        ≡ add_all p.decode (roots_from roots files)
  unfolding add_repositories detect_repositories add_all Repository.new
  matcher-add_repositories folder [] roots s h = h
  matcher-add_repositories folder (file ∷ files) roots s h =
      elim (Bool-cases (is_git_config_file file)) [
        | inl e ↦ rw e (
            matcher-add_repositories folder files (p.root_of_config file ∷ roots)
              (add_repository_to_workspace p folder
                (Repository.new folder (p.root_of_config file) file) s)
              (matcher-add folder (Repository.new folder (p.root_of_config file) file) s
                ∙ ap (add_directory_to_match p.decode (p.root_of_config file)) h))
        | inr e ↦ rw e (matcher-add_repositories folder files roots s h)
      ]

  module _ (disk : Disk) where
    matcher-update :
        (found : JsMap JsText (JsMap JsText JsText)) (o : Option Folder) (folder : JsText)
        (s : Service)
        → JsMap.get s.folders folder ≡ o
        → get_directory_matcher_for_workspace folder (update_folder p disk found o folder s)
          ≡ get_directory_matcher_for_workspace folder s
    unfolding get_directory_matcher_for_workspace
    matcher-update found none folder s e = refl
    matcher-update found (some f) folder s e =
        ap matcher_or_new (get-set_self s.folders folder _) ∙ sym (ap matcher_or_new e)

    matcher-clear :
        (folder : JsText) (s : Service)
        → get_directory_matcher_for_workspace folder (clear_repositories_for_workspace folder s)
          ≡ add_all p.decode []
    unfolding get_directory_matcher_for_workspace clear_repositories_for_workspace add_all
    matcher-clear folder s =
        ap matcher_or_new (get-delete_self (JsMap.delete s.folders folder) folder)

    -- After the repositories of a folder were set from its files, the repository that is found for any file is the one whose root
    -- has as its path the longest beginning of the file's path that a root of a git config among the files has, the last of
    -- several with the same path; and none is found if there is no such root. What was set before has no say.
    pub set_workspace_repositories-deepest :
        (folder : JsText) (files : List JsText) (s : Service) (uri : JsText)
        → get_repository_uri_for_file p uri folder
            (set_workspace_repositories p disk folder files s)
          ≡ deepest (last_with p.decode (roots_from [] files)) (parts_of p.decode uri)
    unfolding set_workspace_repositories add_files_to_repositories get_repository_uri_for_file
    set_workspace_repositories-deepest folder files s uri =
        let cleared = clear_repositories_for_workspace folder s in
        let added = add_repositories p folder (detect_repositories p folder files) cleared in
        ap (λ (t : Trie). last_of (find_matching_directories p.decode uri t))
          (matcher-update (get_files_by_repositories p folder added files [])
              (JsMap.get added.folders folder) folder added refl
            ∙ matcher-add_repositories folder files [] cleared (matcher-clear folder s))
        ∙ (ap last_of (find_matching_directories-add_all p.decode (roots_from [] files) uri)
            ∙ last_of-matches_by (last_with p.decode (roots_from [] files)) (parts_of p.decode uri))
