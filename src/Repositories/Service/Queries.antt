-- ===== src/Repositories/Service/Queries.antt =====
-- `repository_service.ts`: what its clients ask.
use khulnasoft_lsp.Base.{List, [], ◌∷◌, ◌++◌, Option, none, some, JsText, units_key}
use khulnasoft_lsp.Base.JsMap
use khulnasoft_lsp.Base.JsMap.{JsMap}
use khulnasoft_lsp.Repositories.Repository.{
  RepositoryFile, GetFileOptions, Repository, get_file, get_current_tree_files,
}
use khulnasoft_lsp.Repositories.Service.{Service, no_options, get_repositories_for_workspace}

abbrev file_or_none : GetFileOptions → JsText → Option Repository → Option RepositoryFile
file_or_none options file none = none
file_or_none options file (some r) = get_file file options r

unfoldable pub get_repository_file_for_uri :
    JsText → JsText → JsText → Service → Option RepositoryFile
unfolding JsMap.get get_repositories_for_workspace get_file
get_repository_file_for_uri file repository folder s =
    file_or_none no_options file (JsMap.get (get_repositories_for_workspace folder s) repository)

abbrev files_or_none : GetFileOptions → Option Repository → List RepositoryFile
files_or_none options none = []
files_or_none options (some r) = get_current_tree_files options r

unfoldable pub get_current_files_for_repository :
    JsText → JsText → GetFileOptions → Service → List RepositoryFile
unfolding JsMap.get get_repositories_for_workspace get_current_tree_files
get_current_files_for_repository repository folder options s =
    files_or_none options (JsMap.get (get_repositories_for_workspace folder s) repository)

unfoldable pub collect_files : GetFileOptions → JsMap JsText Repository → List RepositoryFile
unfolding get_current_tree_files
collect_files options [] = []
collect_files options ((uri, r) ∷ rs) = get_current_tree_files options r ++ collect_files options rs

unfoldable pub get_current_files_for_workspace :
    JsText → GetFileOptions → Service → List RepositoryFile
unfolding get_repositories_for_workspace collect_files
get_current_files_for_workspace folder options s =
    collect_files options (get_repositories_for_workspace folder s)
