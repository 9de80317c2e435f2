-- ===== src/Batch.antt =====
-- internal/domain/batch.go: the operations on several files. What fails for one of them is counted or
-- logged, and the rest goes on. The recursions over directories have fuel; running out of it stands for a
-- recursion that does not return, is the error out_of_fuel, and is counted nowhere.
pub mod Copy
pub mod Totals
use fileupload.Upload.Trees.Bin.{trash}
use fileupload.Upload.Move.{move_file}
use fileupload.Store.Tags.{set_file_tags}
use fileupload.Store.{put_file, incr_blob_ref, list_children, get_file}
use fileupload.Ids.{new_id}
use fileupload.Upload.Delete.{owned}
use fileupload.Domain.{
  returns, not_found, invalid_argument, out_of_fuel, err, ok, FileMetadata, Result,
}
use fileupload.World.{require, ignore, attempt, gets, pure, raise, Exec, ◌>>=◌, ◌>>◌}
use fileupload.Base.{
  zero, true, ◌-◌, not, suc, false, ◌∷◌, length, [], is_empty, ◌==◌, Option, if◌then◌else◌, Bool,
  ◌+◌, ℕ, List, Bytes, none, some,
}

-- BatchDeleteResult, BatchCopyResult
pub record BatchResult : Type 0 where
  pub success : ℕ
  pub failed : ℕ

abbrev pub succeed : BatchResult → BatchResult
succeed r = record r { success = r.success + 1 }

abbrev pub fail : BatchResult → BatchResult
fail r = record r { failed = r.failed + 1 }

-- whether GetFile found a file of the namespace
abbrev pub found_in : Bytes → Result (Option FileMetadata) → Bool
found_in ns (ok (some f)) = f.namespace == ns
found_in ns (ok none) = false
found_in ns (err e) = false

abbrev pub tally : Result (Unit {0}) → BatchResult → BatchResult
tally (ok u) r = succeed r
tally (err e) r = fail r

-- the loop of BatchDelete
unfoldable pub delete_each : ℕ → Bytes → List Bytes → BatchResult → Exec BatchResult
delete_each fuel ns [] r = pure r
delete_each fuel ns (id ∷ ids) r = do
  found ← attempt (get_file id)
  trashed ← (if found_in ns found then attempt (trash fuel id ns) else pure (err not_found))
  require (returns trashed) out_of_fuel
  delete_each fuel ns ids (tally trashed r)

-- BatchDelete
unfoldable pub batch_delete : ℕ → List Bytes → Bytes → Exec BatchResult
unfolding delete_each
batch_delete fuel ids ns = delete_each fuel ns ids (record { success = 0; failed = 0 })

-- the checks on the target directory; the empty target is the root
unfoldable pub check_target_dir : Bytes → Bytes → Exec (Unit {0})
unfolding owned
check_target_dir target ns =
    if is_empty target
    then pure tt
    else (do found ← get_file target; dir ← owned ns found; require dir.is_dir invalid_argument)

unfoldable pub move_each : List Bytes → Bytes → Bytes → Exec (Unit {0})
move_each [] target ns = pure tt
move_each (id ∷ ids) target ns = do ignore (move_file id target ns); move_each ids target ns

-- BatchMove
unfoldable pub batch_move : List Bytes → Bytes → Bytes → Exec (Unit {0})
unfolding check_target_dir move_each
batch_move ids target ns = do check_target_dir target ns; move_each ids target ns

-- the copy of a file or of a directory
unfoldable pub copy_of : Bytes → Bytes → Bytes → ℕ → FileMetadata → FileMetadata
copy_of id target ns now f = record {
  file_id = id;
  sha256 = if f.is_dir then [] else f.sha256;
  name = f.name;
  path = f.path;
  size = if f.is_dir then 0 else f.size;
  namespace = ns;
  is_dir = f.is_dir;
  parent_id = target;
  tags = [];
  created_at = now;
  deleted_at = none;
}

-- once the row is written the content gets a reference; that this fails is only logged
unfoldable pub count_copy : Bytes → Result (Unit {0}) → Exec Bool
count_copy sha (err e) = pure false
count_copy sha (ok u) = do if is_empty sha then pure tt else ignore (incr_blob_ref sha); pure true

-- whether the file was copied
unfoldable pub copy_file : Bytes → Bytes → ℕ → FileMetadata → Exec Bool
unfolding copy_of count_copy
copy_file target ns now f = do
  id ← new_id
  put ← attempt (put_file (copy_of id target ns now f))
  count_copy f.sha256 put

-- a directory's row was written: its children follow
unfoldable pub copy_inside :
    (Bytes → Bytes → Exec (Unit {0})) → Bytes → Bytes → Result (Unit {0}) → Exec (Unit {0})
copy_inside go source id (err e) = pure tt
copy_inside go source id (ok u) = go source id

unfoldable pub copy_child :
    (Bytes → Bytes → Exec (Unit {0})) → Bytes → Bytes → ℕ → FileMetadata → Exec (Unit {0})
unfolding copy_file copy_inside
copy_child go target ns now c =
    if c.is_dir
    then (do
      id ← new_id
      put ← attempt (put_file (copy_of id target ns now c))
      copy_inside go c.file_id id put)
    else (do _ ← copy_file target ns now c; pure tt)

unfoldable pub copy_each_child :
    (Bytes → Bytes → Exec (Unit {0})) → Bytes → Bytes → ℕ → List FileMetadata → Exec (Unit {0})
unfolding copy_child
copy_each_child go target ns now [] = pure tt
copy_each_child go target ns now (c ∷ cs) = do
  copy_child go target ns now c
  copy_each_child go target ns now cs

-- copyDirChildren
unfoldable pub copy_dir_children : ℕ → Bytes → ℕ → Bytes → Bytes → Exec (Unit {0})
unfolding copy_each_child
copy_dir_children zero ns now source target = raise out_of_fuel
copy_dir_children (suc fuel) ns now source target = do
  cs ← list_children source
  copy_each_child (copy_dir_children fuel ns now) target ns now cs

-- a directory counts as copied once its row is written, whatever happens to its children
unfoldable pub copy_dir : ℕ → Bytes → Bytes → ℕ → FileMetadata → Exec Bool
unfolding copy_dir_children copy_of
copy_dir fuel target ns now f = do
  id ← new_id
  put ← attempt (put_file (copy_of id target ns now f))
  elim put [
    | err e ↦ pure false
    | ok u ↦ do
      inside ← attempt (copy_dir_children fuel ns now f.file_id id)
      require (returns inside) out_of_fuel
      pure true
  ]

unfoldable pub copy_found : ℕ → Bytes → Bytes → ℕ → Result (Option FileMetadata) → Exec Bool
unfolding copy_dir copy_file
copy_found fuel target ns now (err e) = pure false
copy_found fuel target ns now (ok none) = pure false
copy_found fuel target ns now (ok (some f)) =
    if not (f.namespace == ns)
    then pure false
    else if f.is_dir
    then copy_dir fuel target ns now f
    else copy_file target ns now f

-- the loop of BatchCopy
unfoldable pub copy_each : ℕ → Bytes → Bytes → ℕ → List Bytes → ℕ → Exec ℕ
unfolding copy_found
copy_each fuel target ns now [] copied = pure copied
copy_each fuel target ns now (id ∷ ids) copied = do
  found ← attempt (get_file id)
  done ← copy_found fuel target ns now found
  copy_each fuel target ns now ids (if done then copied + 1 else copied)

-- BatchCopy
unfoldable pub batch_copy : ℕ → List Bytes → Bytes → Bytes → Exec BatchResult
unfolding check_target_dir copy_each
batch_copy fuel ids target ns = do
  check_target_dir target ns
  now ← gets (λ w. w.now)
  copied ← copy_each fuel target ns now ids 0
  pure (record { success = copied; failed = length ids - copied })

-- BatchTag
unfoldable pub batch_tag : List Bytes → List Bytes → Bytes → Exec (Unit {0})
batch_tag [] tags ns = pure tt
batch_tag (id ∷ ids) tags ns = do
  found ← attempt (get_file id)
  if found_in ns found then ignore (set_file_tags id tags) else pure tt
  batch_tag ids tags ns
