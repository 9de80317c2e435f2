-- ===== src/Upload/Trash/Termination.antt =====
-- The walk over a tree in the recycle bin ends, even if the parents form a cycle.
use mathlib.Core.Option
use fileupload.Domain.{FileMetadata}
use fileupload.Upload.Trash.{tree_of, children_in, enqueue, walk, is_seen}
use fileupload.Base.{
  zero, none, ◌++◌, some, length-append, suc, refl, Option, eq_refl, eq_iff, ◌+◌, ◌==◌, ◌&&◌, [],
  true, length, false, if◌then◌else◌, ◌≡◌, Bool, ◌∷◌, ◌≤◌, ℕ, Bytes, List, arith,
}

-- the items that have not been seen
pub unseen : List Bytes → List FileMetadata → ℕ
unseen seen [] = 0
unseen seen (f ∷ fs) = (if is_seen f.file_id seen then 0 else 1) + unseen seen fs

unseen-more :
    (id : Bytes) (seen : List Bytes) (fs : List FileMetadata)
    → unseen (id ∷ seen) fs ≤ unseen seen fs
unfolding unseen is_seen
unseen-more id seen [] = ground arith
unseen-more id seen (f ∷ fs) = ground (arith, unseen-more id seen fs)

pub unseen-length : (seen : List Bytes) (fs : List FileMetadata) → unseen seen fs ≤ length fs
unfolding unseen
unseen-length seen [] = ground arith
unseen-length seen (f ∷ fs) = ground (arith, unseen-length seen fs)

-- an item of the list
unfoldable pub is_item : Bytes → List FileMetadata → Bool
is_item id [] = false
is_item id (f ∷ fs) = if f.file_id == id then true else is_item id fs

-- an item that is seen now was unseen
pub unseen-item :
    (id : Bytes) (seen : List Bytes) (fs : List FileMetadata)
    → is_item id fs ≡ true
    → is_seen id seen ≡ false
    → unseen (id ∷ seen) fs + 1 ≤ unseen seen fs
unfolding unseen is_seen is_item
unseen-item id seen [] i s = ground arith
unseen-item id seen (f ∷ fs) i s = ground (
  arith,
  unseen-item id seen fs,
  unseen-more id seen fs,
  eq_iff f.file_id id,
  eq_refl id,
  eq_iff id f.file_id,
)

all_items : List FileMetadata → List FileMetadata → Bool
all_items items [] = true
all_items items (c ∷ cs) = is_item c.file_id items && all_items items cs

-- children are items
children-items :
    (id : Bytes) (items fs : List FileMetadata)
    → all_items items fs ≡ true
    → all_items items (children_in id fs) ≡ true
unfolding all_items children_in
children-items id items [] h = refl
children-items id items (f ∷ fs) h = ground (arith, children-items id items fs)

all_items-more :
    (f : FileMetadata) (items fs : List FileMetadata)
    → all_items items fs ≡ true
    → all_items (f ∷ items) fs ≡ true
unfolding all_items is_item
all_items-more f items [] h = refl
all_items-more f items (g ∷ fs) h = ground (arith, all_items-more f items fs)

all_items_refl : (items : List FileMetadata) → all_items items items ≡ true
unfolding all_items is_item
all_items_refl [] = refl
all_items_refl (f ∷ fs) =
    ground (arith, eq_refl f.file_id, all_items-more f fs fs, all_items_refl fs)

-- what a walk has still to do
abbrev work : List FileMetadata → List FileMetadata × List Bytes → ℕ
work items qs = length qs.0 + unseen qs.1 items

-- An item joins the queue when it is seen, so the work does not grow.
enqueue-work :
    (items cs : List FileMetadata) (qs : List FileMetadata × List Bytes)
    → all_items items cs ≡ true
    → work items (enqueue cs qs) ≤ work items qs
unfolding enqueue all_items
enqueue-work items [] qs h = ground arith
enqueue-work items (c ∷ cs) (queue, seen) h = ground (
  arith,
  unseen-item c.file_id seen items,
  length-append queue (c ∷ []),
  enqueue-work items cs
      (if is_seen c.file_id seen then (queue, seen) else (queue ++ c ∷ [], c.file_id ∷ seen)),
)

is_some : {A : Type 0} → Option A → Bool
is_some none = false
is_some (some a) = true

is_some-map : {A B : Type 0} (f : A → B) (o : Option A) → is_some (Option.map f o) ≡ is_some o
unfolding is_some
is_some-map f none = refl
is_some-map f (some a) = refl

walk-ends :
    (fuel : ℕ) (items : List FileMetadata) (qs : List FileMetadata × List Bytes)
    → work items qs ≤ fuel
    → is_some (walk fuel items qs) ≡ true
unfolding walk is_some
walk-ends fuel items ([], seen) h = refl
walk-ends zero items (f ∷ queue, seen) h = ground arith
walk-ends (suc fuel) items (f ∷ queue, seen) h = ground (
  arith,
  is_some-map (λ fs. f ∷ fs)
      (walk fuel items (enqueue (children_in f.file_id items) (queue, seen))),
  walk-ends fuel items (enqueue (children_in f.file_id items) (queue, seen)),
  enqueue-work items (children_in f.file_id items) (queue, seen),
  children-items f.file_id items items (all_items_refl items),
)

some-walk : {A : Type 0} (o : Option A) → is_some o ≡ true → (a : A) × (o ≡ some a)
unfolding is_some
some-walk none h = ground arith
some-walk (some a) h = (a, refl)

-- The fuel of trashTreeByID is enough for any items, whatever their parents are: the walk ends and
-- yields the tree.
pub tree_total :
    (items : List FileMetadata) (root : FileMetadata)
    → (fs : List FileMetadata) × (tree_of items root ≡ some fs)
unfolding tree_of
tree_total items root = some-walk (walk (length items + 1) items (root ∷ [], root.file_id ∷ [])) (
    walk-ends (length items + 1) items (root ∷ [], root.file_id ∷ [])
      (ground (arith, unseen-length (root.file_id ∷ []) items)))
