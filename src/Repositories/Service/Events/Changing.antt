-- ===== src/Repositories/Service/Events/Changing.antt =====
-- What an event of a file does to the files of its repository.
use khulnasoft_lsp.Base.{Option, none, some, if◌then◌else◌, JsText, units_key, ◌===◌, ◌≡◌}
use khulnasoft_lsp.Base.JsMap
use khulnasoft_lsp.Base.JsMap.{JsMap}
use khulnasoft_lsp.Repositories.Ignoring.{Paths}
use khulnasoft_lsp.Repositories.Repository.{RepositoryFile, Repository, is_file_ignored}
use khulnasoft_lsp.Repositories.Service.{Disk, Service, get_repositories_for_workspace}
use khulnasoft_lsp.Repositories.Service.Events.{FileChangeType, deleted}

-- What is kept of a repository besides its directories
record SameFiles (q r : Repository) : Type 0 where
  files : q.files ≡ r.files
  uri : q.uri ≡ r.uri

-- What the repository knows of the file after the event
abbrev pub known_after : Paths → FileChangeType → JsText → Repository → Option RepositoryFile
known_after p deleted uri r = none
known_after p _ uri r = some (record {
  uri = uri;
  repository_uri = r.uri;
  ignored = is_file_ignored p uri r;
  workspace_folder = r.workspace_folder;
})

module _ (p : Paths) (disk : Disk) (folder : JsText) (type : FileChangeType) (uri : JsText) where
  -- The repository with this root is one whose files are those of another, but for the file of the event.
  abbrev pub IsUpdated : Repository → Service → Type 0
  IsUpdated r s =
      (q : Repository) × (JsMap.get (get_repositories_for_workspace folder s) r.uri ≡ some q)
      × ((k : JsText)
          → JsMap.get q.files k
            ≡ (if uri === k then known_after p type uri r else JsMap.get r.files k))
