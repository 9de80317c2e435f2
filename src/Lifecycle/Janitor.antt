-- ===== src/Lifecycle/Janitor.antt =====
-- internal/lifecycle/trash_janitor.go: one round of TrashJanitor, with ListAllFiles of sqlite.go.
use fileupload.Meta.Files.{is_live}
use fileupload.Upload.Trees.Erase.{purge_from_trash}
use fileupload.Upload.Trash.{item_by_id}
use fileupload.Domain.{out_of_fuel, returns, err, ok, Result, FileMetadata}
use fileupload.World.{require, gets, pure, attempt, backend_call, Exec, ◌>>=◌, ◌>>◌}
use fileupload.Base.{
  ◌+◌, leb, false, none, some, not, ◌&&◌, [], sort_by, if◌then◌else◌, bytes_leb, ◌∷◌, Bool, ℕ, List,
}

by_file_id : FileMetadata → FileMetadata → Bool
by_file_id f g = bytes_leb f.file_id g.file_id

-- ListAllFiles
unfoldable pub list_all_files : Exec (List FileMetadata)
unfolding by_file_id
list_all_files = do backend_call; gets (λ w. sort_by by_file_id w.db.files)

-- f.DeletedAt == nil || f.DeletedAt.After(now - retention) keeps a file
unfoldable pub has_expired : ℕ → ℕ → FileMetadata → Bool
has_expired now retention f = elim f.deleted_at [
  | none ↦ false
  | some at ↦ leb (at + retention) now
]

-- parent != nil && parent.DeletedAt != nil
unfoldable pub in_trashed_dir : List FileMetadata → FileMetadata → Bool
in_trashed_dir files f = elim (item_by_id f.parent_id files) [
  | none ↦ false
  | some d ↦ not (is_live d)
]

-- the loop of reap; the purge has fuel for its recursion, and its failure is only logged, unless it does
-- not return
unfoldable pub purge_expired : ℕ → ℕ → ℕ → List FileMetadata → List FileMetadata → Exec (Unit {0})
unfolding has_expired in_trashed_dir
purge_expired fuel now retention files [] = pure tt
purge_expired fuel now retention files (f ∷ fs) = do
  purged ←
      (if has_expired now retention f && not (in_trashed_dir files f)
        then attempt (purge_from_trash fuel f.file_id f.namespace)
        else pure (ok tt))
  require (returns purged) out_of_fuel
  purge_expired fuel now retention files fs

abbrev or_no_files : Result (List FileMetadata) → List FileMetadata
or_no_files (ok fs) = fs
or_no_files (err e) = []

-- reap
unfoldable pub janitor_round : ℕ → ℕ → Exec (Unit {0})
unfolding list_all_files purge_expired
janitor_round fuel retention = do
  listed ← attempt list_all_files
  now ← gets (λ w. w.now)
  purge_expired fuel now retention (or_no_files listed) (or_no_files listed)
