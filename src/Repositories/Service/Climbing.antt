-- ===== src/Repositories/Service/Climbing.antt =====
-- The loop over the directories above a file ends.
use khulnasoft_lsp.Base.{
  ℕ, zero, suc, ◌≤◌, ◌<◌, Bool, true, false, not, ◌&&◌, length, if◌then◌else◌, is_some, JsText,
  starts_with, units_key, ◌===◌, Bool-cases, inl, inr, ◌≡◌, refl, ap, ◌∙◌, arith,
}
use khulnasoft_lsp.Repositories.Ignoring.{Paths}
use khulnasoft_lsp.Repositories.Repository.{Repository, get_directory, set_directory}
use khulnasoft_lsp.Repositories.Service.{Disk, no_options, set_directories_from}

-- The test of the loop
abbrev goes_on : Disk → JsText → Repository → Bool
goes_on disk path r = starts_with path (disk.fs_path r.uri) && not (path === disk.fs_path r.uri)

uri-set_directory :
    (p : Paths) (uri : JsText) (r : Repository) (b : Bool)
    → (if b then r else set_directory p uri r).uri ≡ r.uri
unfolding set_directory
uri-set_directory p uri r true = refl
uri-set_directory p uri r false = refl

module _ (p : Paths) (disk : Disk) (root : JsText)
    (shorter : (path : JsText)
      → (starts_with path root && not (path === root)) ≡ true
      → length (disk.path_dirname path) < length path) where
  -- If the directory of a path that goes on from the root is shorter than the path, any number of rounds that is not below the
  -- length of the path gives the same: no round is missing.
  set_directories_from-enough :
      (n m : ℕ) (path : JsText) (r : Repository)
      → disk.fs_path r.uri ≡ root
      → length path ≤ n
      → length path ≤ m
      → set_directories_from p disk n path r ≡ set_directories_from p disk m path r
  unfolding set_directories_from
  set_directories_from-enough zero zero path r e hn hm = refl
  set_directories_from-enough zero (suc m) path r e hn hm =
      elim (Bool-cases (goes_on disk path r)) [
        | inl t ↦ let l = shorter path (rw e at t) in absurd (omega arith)
        | inr f ↦ rw f refl
      ]
  set_directories_from-enough (suc n) zero path r e hn hm =
      elim (Bool-cases (goes_on disk path r)) [
        | inl t ↦ let l = shorter path (rw e at t) in absurd (omega arith)
        | inr f ↦ rw f refl
      ]
  set_directories_from-enough (suc n) (suc m) path r e hn hm =
      elim (Bool-cases (goes_on disk path r)) [
        | inl t ↦
            let l = shorter path (rw e at t) in
            let uri = disk.path_to_uri path in
            let there = is_some (get_directory uri no_options r) in
            rw t (
              set_directories_from-enough n m (disk.path_dirname path)
                (if there then r else set_directory p uri r)
                (ap disk.fs_path (uri-set_directory p uri r there) ∙ e) (omega arith) (omega arith))
        | inr f ↦ rw f refl
      ]
