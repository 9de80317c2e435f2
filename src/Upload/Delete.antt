-- ===== src/Upload/Delete.antt =====
-- internal/domain/upload.go: DeleteFile, Rename, and the deletion of a file whose steps are logged.
pub mod References
pub mod Rollback
pub mod LastReference
use fileupload.Store.{
  get_blob_by_sha, incr_blob_ref, rename_file, put_file, decr_blob_ref, delete_file, get_file,
}
use fileupload.Domain.{forbidden, not_found, ok, ContentBlob, err, Result, FileMetadata}
use fileupload.Base.{
  ◌==◌, none, ◌++◌, some, eqb, is_empty, if◌then◌else◌, [], Option, ℕ, List, ◌∷◌, Bytes,
}
use fileupload.World.{require, raise, attempt, pure, ignore, Exec, ◌>>=◌, ◌>>◌}
use fileupload.Storage.LocalFs.{data_dir, delete_object}

-- the file of an identifier, if it is the namespace's
unfoldable pub owned : Bytes → Option FileMetadata → Exec FileMetadata
owned ns none = raise not_found
owned ns (some f) = do require (f.namespace == ns) forbidden; pure f

-- if err == nil && blob != nil { _ = s.storage.Delete(...) }
unfoldable pub remove_content : Result (Option ContentBlob) → Exec (Unit {0})
remove_content (ok (some b)) = ignore (delete_object data_dir b.storage_path)
remove_content (ok none) = pure tt
remove_content (err e) = pure tt

-- one reference less; content without a reference goes
unfoldable pub drop_reference : Bytes → Exec (Unit {0})
unfolding remove_content
drop_reference sha = do
  n ← decr_blob_ref sha
  blob ← (if eqb n 0 then attempt (get_blob_by_sha sha) else pure (ok none))
  remove_content blob

-- deleteFile
unfoldable pub delete_row : FileMetadata → Exec (Unit {0})
unfolding drop_reference
delete_row f = do
  delete_file f.file_id
  if is_empty f.sha256 then pure tt else drop_reference f.sha256

-- DeleteFile
unfoldable pub delete_file_for : Bytes → Bytes → Exec (Unit {0})
unfolding owned delete_row
delete_file_for id ns = do found ← get_file id; f ← owned ns found; delete_row f

unfoldable pub rename : Bytes → Bytes → Bytes → Bytes → Exec (Unit {0})
unfolding owned
rename id name path ns = do found ← get_file id; _ ← owned ns found; rename_file id name path

-- undoOp
pub data Undo : Type 0 where
  undo_delete_file : FileMetadata → Undo
  undo_decr_ref : Bytes → Undo

-- What is logged stays logged on an error: the undo stack, its top first, and the paths whose
-- content is to go.
pub record Log : Type 0 where
  pub undo : List Undo
  pub pending : List Bytes

abbrev pub push : Undo → Log → Log
push u log = record log { undo = u ∷ log.undo }

-- err == nil && blob != nil && blob.StoragePath != ""
abbrev pub with_path : Result (Option ContentBlob) → Log → Log
with_path (ok (some b)) log =
    if is_empty b.storage_path
    then log
    else record log { pending = log.pending ++ b.storage_path ∷ [] }
with_path (ok none) log = log
with_path (err e) log = log

unfoldable pub after_decr : Bytes → Log → Result ℕ → Exec (Result (Unit {0}) × Log)
after_decr sha log (err e) = pure (err e, log)
after_decr sha log (ok n) = do
  blob ← (if eqb n 0 then attempt (get_blob_by_sha sha) else pure (ok none))
  pure (ok tt, with_path blob (push (undo_decr_ref sha) log))

unfoldable pub after_delete :
    FileMetadata → Log → Result (Unit {0}) → Exec (Result (Unit {0}) × Log)
unfolding after_decr
after_delete f log (err e) = pure (err e, log)
after_delete f log (ok _) =
    if is_empty f.sha256 then pure (ok tt, push (undo_delete_file f) log) else (do
      n ← attempt (decr_blob_ref f.sha256)
      after_decr f.sha256 (push (undo_delete_file f) log) n)

-- deleteFileWithUndoDeferred
unfoldable pub delete_file_deferred : FileMetadata → Log → Exec (Result (Unit {0}) × Log)
unfolding after_delete
delete_file_deferred f log = do
  deleted ← attempt (delete_file f.file_id)
  after_delete f log deleted

unfoldable pub roll_back_one : Undo → Exec (Unit {0})
roll_back_one (undo_delete_file f) = ignore (put_file f)
roll_back_one (undo_decr_ref sha) = ignore (incr_blob_ref sha)

-- rollbackDeleteUndo
unfoldable pub roll_back : List Undo → Exec (Unit {0})
unfolding roll_back_one
roll_back [] = pure tt
roll_back (u ∷ us) = do roll_back_one u; roll_back us

unfoldable pub delete_paths : List Bytes → Exec (Unit {0})
delete_paths [] = pure tt
delete_paths (p ∷ ps) = do delete_object data_dir p; delete_paths ps

unfoldable pub finish_purge : Result (Unit {0}) → Log → Exec (Unit {0})
unfolding roll_back delete_paths
finish_purge (err e) log = do roll_back log.undo; raise e
finish_purge (ok _) log = delete_paths log.pending

-- the end of PurgeFromTrash, for a file
unfoldable pub purge_row : FileMetadata → Exec (Unit {0})
unfolding delete_file_deferred finish_purge
purge_row f = do
  (deleted, log) ← delete_file_deferred f (record { undo = []; pending = [] })
  finish_purge deleted log
