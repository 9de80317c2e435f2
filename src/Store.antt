-- ===== src/Store.antt =====
-- internal/adapters/metadata/sqlite.go, behind the methods of internal/adapters/metadata/facade.go:
-- the metadata port as actions. A statement, or a transaction, is one call of the database: it
-- fails and changes nothing, or takes effect.
pub mod Quota
pub mod Sessions
pub mod Integrity
pub mod Counted
pub mod Pages
pub mod Tags
use mathlib.Core.Option
use fileupload.Base.{
  sort_by, bytes_leb, eqb, ltb, ℕ, Bool, true, false, Option, none, some, List, Bytes,
  if◌then◌else◌,
}
use fileupload.Domain.{ContentBlob, FileMetadata, backend, not_found}
use fileupload.World.{Exec, pure, raise, gets, backend_call, modify_db, require, ◌>>=◌, ◌>>◌}
use fileupload.Meta.Blobs.{
  blob_by_sha, incr_ref, decr_ref, set_storage_path, insert_or_ignore, count_of, has_blob,
}
use fileupload.Meta.Files.{
  set_parent_path, live_file, insert_file, delete_rows, set_deleted, clear_deleted, rename_rows,
  set_parent, children_of, trash_of, has_trashed,
}

-- content_blobs

unfoldable pub get_blob_by_sha : Bytes → Exec (Option ContentBlob)
get_blob_by_sha sha = do backend_call; gets (λ w. blob_by_sha sha w.db.blobs)

unfoldable pub put_blob : ContentBlob → Exec (Unit {0})
put_blob b = do backend_call; modify_db (λ d. record d { blobs = insert_or_ignore b d.blobs })

unfoldable pub acquire_row : ContentBlob → Option ContentBlob → Exec (Bytes × Bool)
acquire_row b none = do
  modify_db (λ d. record d { blobs = insert_or_ignore (record b { ref_count = 1 }) d.blobs })
  pure (b.storage_path, true)
acquire_row b (some row) = do
  modify_db (λ d. record d { blobs = incr_ref b.sha256 d.blobs })
  pure (row.storage_path, false)

-- the canonical path, and whether the row is new
unfoldable pub acquire_blob : ContentBlob → Exec (Bytes × Bool)
unfolding acquire_row
acquire_blob b = do
  backend_call
  found ← gets (λ w. blob_by_sha b.sha256 w.db.blobs)
  acquire_row b found

unfoldable pub update_blob_storage : Bytes → Bytes → Exec (Unit {0})
update_blob_storage sha path = do
  backend_call
  modify_db (λ d. record d { blobs = set_storage_path sha path d.blobs })

-- no affected row is an error
unfoldable pub incr_blob_ref : Bytes → Exec (Unit {0})
incr_blob_ref sha = do
  backend_call
  known ← gets (λ w. has_blob sha w.db.blobs)
  modify_db (λ d. record d { blobs = incr_ref sha d.blobs })
  require known backend

-- The count is read back by a second statement, which may fail after the first has taken effect.
unfoldable pub decr_blob_ref : Bytes → Exec ℕ
decr_blob_ref sha = do
  backend_call
  known ← gets (λ w. has_blob sha w.db.blobs)
  modify_db (λ d. record d { blobs = decr_ref sha d.blobs })
  if known then (do backend_call; gets (λ w. count_of sha w.db.blobs)) else pure 0

-- files

unfoldable pub get_file : Bytes → Exec (Option FileMetadata)
get_file id = do backend_call; gets (λ w. live_file id w.db.files)

unfoldable pub set_files : Option (List FileMetadata) → Exec (Unit {0})
set_files none = raise backend
set_files (some fs) = modify_db (λ d. record d { files = fs })

unfoldable pub put_file : FileMetadata → Exec (Unit {0})
unfolding set_files
put_file f = do backend_call; rows ← gets (λ w. insert_file f w.db.files); set_files rows

unfoldable pub delete_file : Bytes → Exec (Unit {0})
delete_file id = do backend_call; modify_db (λ d. record d { files = delete_rows id d.files })

-- ORDER BY name
unfoldable pub by_name : FileMetadata → FileMetadata → Bool
by_name f g = bytes_leb f.name g.name

-- ORDER BY deleted_at DESC, name ASC
by_deletion : FileMetadata → FileMetadata → Bool
by_deletion f g =
    let at = Option.get_or f.deleted_at 0 in
    let at' = Option.get_or g.deleted_at 0 in
    if eqb at at' then bytes_leb f.name g.name else ltb at' at

unfoldable pub list_children : Bytes → Exec (List FileMetadata)
unfolding by_name
list_children parent = do backend_call; gets (λ w. sort_by by_name (children_of parent w.db.files))

unfoldable pub list_trash : Bytes → Exec (List FileMetadata)
unfolding by_deletion
list_trash ns = do backend_call; gets (λ w. sort_by by_deletion (trash_of ns w.db.files))

-- no affected row is ErrNotFound
unfoldable pub move_file_to_trash : Bytes → ℕ → Exec (Unit {0})
move_file_to_trash id at = do
  backend_call
  found ← gets (λ w. live_file id w.db.files)
  modify_db (λ d. record d { files = set_deleted id at d.files })
  elim found [ none ↦ raise not_found | some _ ↦ pure tt ]

unfoldable pub restore_file : Bytes → Exec (Unit {0})
restore_file id = do
  backend_call
  found ← gets (λ w. has_trashed id w.db.files)
  modify_db (λ d. record d { files = clear_deleted id d.files })
  require found not_found

unfoldable pub rename_file : Bytes → Bytes → Bytes → Exec (Unit {0})
rename_file id name path = do
  backend_call
  modify_db (λ d. record d { files = rename_rows id name path d.files })

unfoldable pub update_file_parent : Bytes → Bytes → Exec (Unit {0})
update_file_parent id parent = do
  backend_call
  modify_db (λ d. record d { files = set_parent id parent d.files })

-- UPDATE files SET parent_id = ?, path = ? WHERE file_id = ?
unfoldable pub reparent_file : Bytes → Bytes → Bytes → Exec (Unit {0})
reparent_file id parent path = do
  backend_call
  modify_db (λ d. record d { files = set_parent_path id parent path d.files })
