-- ===== src/Repositories/Service/Disposing.antt =====
-- Whether repositories are disposed.
use khulnasoft_lsp.Base.{
  List, [], ◌∷◌, ◌++◌, Option, none, some, JsText, units_key, ◌≡◌, refl, ap, ◌∙◌,
}
use mathlib.Core.List.{append-nil}
use khulnasoft_lsp.Base.JsMap
use khulnasoft_lsp.Base.JsMap.{JsMap, get-delete_self}
use khulnasoft_lsp.Repositories.Ignoring.{Paths}
use khulnasoft_lsp.Repositories.Repository.{Repository}
use khulnasoft_lsp.Repositories.Service.{
  Disk, Folder, Service, new, repositories_or_none, keys_of, clear_repositories_for_workspace,
  detect_repositories, add_repository_to_workspace, add_repositories, add_files_to_repositories,
  update_folder, get_files_by_repositories, set_workspace_repositories,
}

disposed-clear :
    (folder : JsText) (s : Service)
    → (clear_repositories_for_workspace folder s).disposed ≡ s.disposed
unfolding clear_repositories_for_workspace
disposed-clear folder s =
    ap (λ (o : Option Folder). s.disposed ++ keys_of (repositories_or_none o))
      (get-delete_self s.folders folder)
    ∙ append-nil s.disposed

module _ (p : Paths) where
  disposed-add :
      (folder : JsText) (rs : List Repository) (s : Service)
      → (add_repositories p folder rs s).disposed ≡ s.disposed
  unfolding add_repositories
  disposed-add folder [] s = refl
  disposed-add folder (r ∷ rs) s = disposed-add folder rs (add_repository_to_workspace p folder r s)

  module _ (disk : Disk) where
    disposed-update :
        (found : JsMap JsText (JsMap JsText JsText)) (o : Option Folder) (folder : JsText)
        (s : Service)
        → (update_folder p disk found o folder s).disposed ≡ s.disposed
    disposed-update found none folder s = refl
    disposed-update found (some f) folder s = refl

    disposed-set :
        (folder : JsText) (files : List JsText) (s : Service)
        → (set_workspace_repositories p disk folder files s).disposed ≡ s.disposed
    unfolding set_workspace_repositories add_files_to_repositories
    disposed-set folder files s =
        let cleared = clear_repositories_for_workspace folder s in
        let rs = detect_repositories p folder files in
        let added = add_repositories p folder rs cleared in
        disposed-update (get_files_by_repositories p folder added files [])
          (JsMap.get added.folders folder) folder added
        ∙ (disposed-add folder rs cleared ∙ disposed-clear folder s)

    -- Workspace folders, with their files at the time, whose repositories are set one after the other, the last set
    -- first in the list.
    unfoldable pub run : List (JsText × List JsText) → Service
    unfolding new
    run [] = new
    run ((folder, files) ∷ sets) = set_workspace_repositories p disk folder files (run sets)

    -- Whatever folders are set, and however often, no repository is ever disposed.
    pub run-disposed : (sets : List (JsText × List JsText)) → (run sets).disposed ≡ []
    unfolding run
    run-disposed [] = refl
    run-disposed ((folder, files) ∷ sets) = disposed-set folder files (run sets) ∙ run-disposed sets
