-- ===== src/Upload/Trash.antt =====
-- internal/domain/trash.go: the tree of a file in the recycle bin, and its restoration.
pub mod Termination
pub mod Closure
pub mod RoundTrip
use mathlib.Core.Option
use fileupload.Domain.{not_found, FileMetadata}
use fileupload.Base.{
  zero, true, ◌==◌, ◌++◌, ◌+◌, suc, if◌then◌else◌, length, some, none, [], ◌∷◌, false, Bool, Bytes,
  List, ℕ, Option,
}
use fileupload.World.{raise, pure, Exec, ◌>>=◌, ◌>>◌}
use fileupload.Store.{list_trash, restore_file}

-- seen[id]
unfoldable pub is_seen : Bytes → List Bytes → Bool
is_seen id [] = false
is_seen id (s ∷ ss) = if s == id then true else is_seen id ss

-- children[id], in the order of the items
unfoldable pub children_in : Bytes → List FileMetadata → List FileMetadata
children_in id [] = []
children_in id (f ∷ fs) =
    let rest = children_in id fs in if f.parent_id == id then f ∷ rest else rest

-- byID[id]; a later item of the same identifier replaces an earlier one
unfoldable pub item_by_id : Bytes → List FileMetadata → Option FileMetadata
item_by_id id [] = none
item_by_id id (f ∷ fs) = elim (item_by_id id fs) [
  | none ↦ if f.file_id == id then some f else none
  | some g ↦ some g
]

-- the loop over the children: those that are new are seen and join the queue
unfoldable pub enqueue :
    List FileMetadata → List FileMetadata × List Bytes → List FileMetadata × List Bytes
unfolding is_seen
enqueue [] qs = qs
enqueue (c ∷ cs) (queue, seen) =
    enqueue cs
      (if is_seen c.file_id seen then (queue, seen) else (queue ++ c ∷ [], c.file_id ∷ seen))

-- the loop over the queue, on fuel; what is taken off the queue comes first in the result
unfoldable pub walk :
    ℕ → List FileMetadata → List FileMetadata × List Bytes → Option (List FileMetadata)
unfolding enqueue children_in
walk fuel items ([], seen) = some []
walk zero items (f ∷ queue, seen) = none
walk (suc fuel) items (f ∷ queue, seen) =
    Option.map (λ fs. f ∷ fs)
      (walk fuel items (enqueue (children_in f.file_id items) (queue, seen)))

-- trashTreeByID, with fuel for each item once
unfoldable pub tree_of : List FileMetadata → FileMetadata → Option (List FileMetadata)
unfolding walk
tree_of items root = walk (length items + 1) items (root ∷ [], root.file_id ∷ [])

unfoldable pub restore_all : List FileMetadata → Exec (Unit {0})
restore_all [] = pure tt
restore_all (f ∷ fs) = do restore_file f.file_id; restore_all fs

abbrev pub or_no_items : Option (List FileMetadata) → List FileMetadata
or_no_items none = []
or_no_items (some fs) = fs

unfoldable pub restore_root : List FileMetadata → Option FileMetadata → Exec (Unit {0})
unfolding restore_all tree_of
restore_root items none = raise not_found
restore_root items (some root) = restore_all (or_no_items (tree_of items root))

-- RestoreFromTrash
unfoldable pub restore_from_trash : Bytes → Bytes → Exec (Unit {0})
unfolding restore_root item_by_id
restore_from_trash id ns = do items ← list_trash ns; restore_root items (item_by_id id items)
