-- ===== src/Upload/Trees/Bin.antt =====
-- internal/domain/trash.go: Trash with trashTree, and ListTrash.
use fileupload.Store.{get_file, move_file_to_trash, list_children}
use fileupload.World.{gets, pure, raise, Exec}
use fileupload.Domain.{out_of_fuel, FileMetadata}
use fileupload.Upload.Delete.{owned}
use fileupload.World.{◌>>=◌, ◌>>◌}
use fileupload.Base.{ℕ, zero, suc, List, [], ◌∷◌, Bytes, if◌then◌else◌}

-- `for _, child := range children { if err := f(child) ... }`
unfoldable pub for_each : (FileMetadata → Exec (Unit {0})) → List FileMetadata → Exec (Unit {0})
for_each go [] = pure tt
for_each go (c ∷ cs) = do go c; for_each go cs

unfoldable pub trash_children : (FileMetadata → Exec (Unit {0})) → FileMetadata → Exec (Unit {0})
unfolding for_each
trash_children go f =
    if f.is_dir then (do cs ← list_children f.file_id; for_each go cs) else pure tt

-- trashTree
unfoldable pub trash_tree : ℕ → ℕ → FileMetadata → Exec (Unit {0})
unfolding trash_children
trash_tree zero at f = raise out_of_fuel
trash_tree (suc fuel) at f = do
  trash_children (trash_tree fuel at) f
  move_file_to_trash f.file_id at

-- Trash once it has its file
unfoldable pub trash_now : ℕ → FileMetadata → Exec (Unit {0})
unfolding trash_tree
trash_now fuel f = do now ← gets (λ w. w.now); trash_tree fuel now f

-- Trash
unfoldable pub trash : ℕ → Bytes → Bytes → Exec (Unit {0})
unfolding owned trash_now
trash fuel id ns = do found ← get_file id; f ← owned ns found; trash_now fuel f
