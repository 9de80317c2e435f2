-- ===== src/Upload/Move.antt =====
-- internal/domain/upload.go: MoveFile.
pub mod Ancestors
pub mod Acyclic
pub mod Ends
use fileupload.Upload.Trash.{is_seen}
use fileupload.Upload.Delete.{owned}
use fileupload.Domain.{invalid_argument, forbidden, not_found, out_of_fuel, FileMetadata}
use fileupload.Base.{
  [], ◌+◌, length, zero, ◌&&◌, ◌||◌, not, ◌∷◌, ◌==◌, is_empty, suc, none, false, if◌then◌else◌,
  some, true, List, Bool, Bytes, Option, ℕ,
}
use fileupload.World.{gets, require, raise, pure, Exec, ◌>>=◌, ◌>>◌}
use fileupload.Store.{get_file, update_file_parent}

-- current == nil ends the loop
unfoldable pub walk_next : (FileMetadata → Exec (Unit {0})) → Option FileMetadata → Exec (Unit {0})
walk_next up none = pure tt
walk_next up (some f) = up f

-- the loop over the parents, on fuel; running out of it is an error of its own
unfoldable pub walk_up : ℕ → Bytes → List Bytes → FileMetadata → Exec (Unit {0})
unfolding walk_next
walk_up zero id seen f = raise out_of_fuel
walk_up (suc fuel) id seen f =
    let up = walk_up fuel id (f.file_id ∷ seen) in
    if is_empty f.file_id || is_seen f.file_id seen
    then pure tt
    else if f.file_id == id
    then raise invalid_argument
    else if is_empty f.parent_id
    then pure tt
    else (do parent ← get_file f.parent_id; walk_next up parent)

-- DeletedAt == nil
abbrev pub is_nil_time : Option ℕ → Bool
is_nil_time none = true
is_nil_time (some at) = false

-- the checks on the target directory
unfoldable pub target_checks : Bytes → Bytes → Option FileMetadata → Exec (Unit {0})
unfolding walk_up
target_checks id ns none = raise not_found
target_checks id ns (some t) = do
  require (t.namespace == ns) forbidden
  require (t.is_dir && is_nil_time t.deleted_at) invalid_argument
  rows ← gets (λ w. length w.db.files)
  walk_up (rows + 1) id [] t

unfoldable pub check_target : Bytes → Bytes → Bytes → Exec (Unit {0})
unfolding target_checks
check_target id target ns = do
  require (not (target == id)) invalid_argument
  dir ← get_file target
  target_checks id ns dir

-- MoveFile; the empty target is the root
unfoldable pub move_file : Bytes → Bytes → Bytes → Exec (Unit {0})
unfolding check_target
move_file id target ns = do
  found ← get_file id
  f ← owned ns found
  if is_empty target then pure tt else check_target id target ns
  update_file_parent id target
