-- ===== src/Upload/Trees/Erase.antt =====
-- internal/domain/upload.go and trash.go: the deletion of directories, at once (Delete, DeleteDir) or
-- with the contents last (PurgeFromTrash).
use fileupload.Storage.LocalFs.{data_dir, delete_object}
use fileupload.Store.{
  get_blob_by_sha, list_trash, list_children, decr_blob_ref, get_file, delete_file,
}
use fileupload.World.{require, ignore, attempt, pure, raise, Exec}
use fileupload.Domain.{
  invalid_argument, forbidden, not_found, out_of_fuel, ok, err, FileMetadata, Result,
}
use fileupload.Upload.Delete.{
  undo_decr_ref, remove_content, push, undo_delete_file, purge_row, delete_row, Log, owned,
  roll_back, Undo, delete_file_deferred,
}
use fileupload.Upload.Trash.{or_no_items, tree_of, restore_all, item_by_id}
use fileupload.World.{◌>>=◌, ◌>>◌}
use fileupload.Base.{
  none, eqb, some, ◌==◌, Option, is_empty, Bool, ℕ, zero, suc, List, [], ◌∷◌, Bytes, if◌then◌else◌,
}

-- the end of deleteFileWithUndo: the content goes at once
unfoldable pub erase_content : Bytes → List Undo → Result ℕ → Exec (Result (Unit {0}) × List Undo)
erase_content sha undo (err e) = pure (err e, undo)
erase_content sha undo (ok n) = do
  blob ← (if eqb n 0 then attempt (get_blob_by_sha sha) else pure (ok none))
  remove_content blob
  pure (ok tt, undo_decr_ref sha ∷ undo)

unfoldable pub erase_reference :
    FileMetadata → List Undo → Result (Unit {0}) → Exec (Result (Unit {0}) × List Undo)
unfolding erase_content
erase_reference f undo (err e) = pure (err e, undo)
erase_reference f undo (ok _) =
    if is_empty f.sha256 then pure (ok tt, undo_delete_file f ∷ undo) else (do
      n ← attempt (decr_blob_ref f.sha256)
      erase_content f.sha256 (undo_delete_file f ∷ undo) n)

-- deleteFileWithUndo
unfoldable pub delete_file_with_undo :
    FileMetadata → List Undo → Exec (Result (Unit {0}) × List Undo)
unfolding erase_reference
delete_file_with_undo f undo = do
  deleted ← attempt (delete_file f.file_id)
  erase_reference f undo deleted

-- a child: a directory has an undo stack of its own
unfoldable pub erase_child :
    (FileMetadata → Exec (Unit {0}))
    → FileMetadata
    → List Undo
    → Exec (Result (Unit {0}) × List Undo)
unfolding delete_file_with_undo
erase_child go c undo =
    if c.is_dir then (do r ← attempt (go c); pure (r, undo)) else delete_file_with_undo c undo

abbrev pub go_on :
    {A : Type 0}
    → Result (Unit {0}) × A
    → (A → Exec (Result (Unit {0}) × A))
    → Exec (Result (Unit {0}) × A)
go_on (ok _, a) next = next a
go_on (err e, a) next = pure (err e, a)

unfoldable pub erase_children :
    (FileMetadata → Exec (Unit {0}))
    → List FileMetadata
    → List Undo
    → Exec (Result (Unit {0}) × List Undo)
unfolding erase_child
erase_children go [] undo = pure (ok tt, undo)
erase_children go (c ∷ cs) undo = do r ← erase_child go c undo; go_on r (erase_children go cs)

-- the directory itself, then the rollback if anything failed
unfoldable pub erase_own_row : FileMetadata → Result (Unit {0}) → Exec (Result (Unit {0}))
erase_own_row d (err e) = pure (err e)
erase_own_row d (ok _) = attempt (delete_file d.file_id)

unfoldable pub undo_or_done : Result (Unit {0}) → List Undo → Exec (Unit {0})
unfolding roll_back
undo_or_done (ok _) undo = pure tt
undo_or_done (err e) undo = do roll_back undo; raise e

-- deleteDir
unfoldable pub delete_dir : ℕ → FileMetadata → Exec (Unit {0})
unfolding erase_children erase_own_row undo_or_done
delete_dir zero d = raise out_of_fuel
delete_dir (suc fuel) d = do
  cs ← list_children d.file_id
  (children, undo) ← erase_children (delete_dir fuel) cs []
  own ← erase_own_row d children
  undo_or_done own undo

-- DeleteDir; its flag for a recursive deletion is not read
unfoldable pub delete_dir_for : ℕ → Bytes → Bool → Bytes → Exec (Unit {0})
unfolding owned delete_dir
delete_dir_for fuel id recursive ns = do
  found ← get_file id
  d ← owned ns found
  require d.is_dir invalid_argument
  delete_dir fuel d

-- Delete
unfoldable pub delete_any : ℕ → Bytes → Bytes → Exec (Unit {0})
unfolding owned delete_dir delete_row
delete_any fuel id ns = do
  found ← get_file id
  f ← owned ns found
  if f.is_dir then delete_dir fuel f else delete_row f

-- the loop over the children of deleteDirDeferredWithUndo
unfoldable pub defer_children :
    (FileMetadata → Log → Exec (Result (Unit {0}) × Log))
    → List FileMetadata
    → Log
    → Exec (Result (Unit {0}) × Log)
unfolding delete_file_deferred
defer_children go [] log = pure (ok tt, log)
defer_children go (c ∷ cs) log = do
  r ← (if c.is_dir then go c log else delete_file_deferred c log)
  go_on r (defer_children go cs)

unfoldable pub defer_own_row : FileMetadata → Log → Exec (Result (Unit {0}) × Log)
defer_own_row d log = do
  r ← attempt (delete_file d.file_id)
  elim r [ err e ↦ pure (err e, log) | ok _ ↦ pure (ok tt, push (undo_delete_file d) log) ]

unfoldable pub defer_listed :
    (FileMetadata → Log → Exec (Result (Unit {0}) × Log))
    → FileMetadata
    → Log
    → Result (List FileMetadata)
    → Exec (Result (Unit {0}) × Log)
unfolding defer_children defer_own_row
defer_listed go d log (err e) = pure (err e, log)
defer_listed go d log (ok cs) = do r ← defer_children go cs log; go_on r (defer_own_row d)

-- deleteDirDeferredWithUndo
unfoldable pub defer_dir : ℕ → Bytes → FileMetadata → Log → Exec (Result (Unit {0}) × Log)
unfolding defer_listed
defer_dir zero ns d log = pure (err out_of_fuel, log)
defer_dir (suc fuel) ns d log =
    if d.namespace == ns
    then (do cs ← attempt (list_children d.file_id); defer_listed (defer_dir fuel ns) d log cs)
    else pure (err forbidden, log)

-- a failure to delete a content is only logged
unfoldable pub try_paths : List Bytes → Exec (Unit {0})
try_paths [] = pure tt
try_paths (p ∷ ps) = do ignore (delete_object data_dir p); try_paths ps

unfoldable pub finish_dir : Result (Unit {0}) → Log → Exec (Unit {0})
unfolding roll_back try_paths
finish_dir (err e) log = do roll_back log.undo; raise e
finish_dir (ok _) log = try_paths log.pending

-- deleteDirDeferred
unfoldable pub delete_dir_deferred : ℕ → Bytes → FileMetadata → Exec (Unit {0})
unfolding defer_dir finish_dir
delete_dir_deferred fuel ns d = do
  (deleted, log) ← defer_dir fuel ns d (record { undo = []; pending = [] })
  finish_dir deleted log

unfoldable pub purge_tree : ℕ → Bytes → List FileMetadata → Option FileMetadata → Exec (Unit {0})
unfolding restore_all tree_of delete_dir_deferred purge_row
purge_tree fuel ns items none = raise not_found
purge_tree fuel ns items (some root) = do
  restore_all (or_no_items (tree_of items root))
  if root.is_dir then delete_dir_deferred fuel ns root else purge_row root

-- PurgeFromTrash
unfoldable pub purge_from_trash : ℕ → Bytes → Bytes → Exec (Unit {0})
unfolding purge_tree item_by_id
purge_from_trash fuel id ns = do
  items ← list_trash ns
  purge_tree fuel ns items (item_by_id id items)
