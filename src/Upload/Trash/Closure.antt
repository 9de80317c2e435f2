-- ===== src/Upload/Trash/Closure.antt =====
-- What the walk over a tree in the recycle bin collects.
use std.Path.{subst}
use mathlib.Core.Option
use fileupload.Domain.{FileMetadata}
use fileupload.Upload.Trash.{tree_of, children_in, walk, is_seen, enqueue}
use fileupload.Base.{
  ◌+◌, length, none, sym, ℕ, ◌==◌, some, Option, zero, suc, refl, eq_refl, ◌||◌, eq_iff, inr, inl,
  Bool-cases, [], ◌∷◌, ◌++◌, true, ◌≡◌, if◌then◌else◌, Bytes, List, arith,
}
use fileupload.Upload.Trash.Termination.{is_item}

is_item-append :
    (id : Bytes) (fs gs : List FileMetadata)
    → is_item id (fs ++ gs) ≡ (is_item id fs || is_item id gs)
unfolding is_item
is_item-append id [] gs = refl
is_item-append id (f ∷ fs) gs = ground (arith, is_item-append id fs gs)

abbrev queued : FileMetadata → List FileMetadata × List Bytes → List FileMetadata × List Bytes
queued c (queue, seen) =
    if is_seen c.file_id seen then (queue, seen) else (queue ++ c ∷ [], c.file_id ∷ seen)

enqueue-keeps :
    (id : Bytes) (cs queue : List FileMetadata) (seen : List Bytes)
    → (is_item id queue ≡ true → is_item id (enqueue cs (queue, seen)).0 ≡ true)
      × (is_seen id seen ≡ true → is_seen id (enqueue cs (queue, seen)).1 ≡ true)
unfolding enqueue is_seen
enqueue-keeps id [] queue seen = (λ h. h, λ h. h)
enqueue-keeps id (c ∷ cs) queue seen = elim (Bool-cases (is_seen c.file_id seen)) [
  | inl old ↦ ground (arith, old, enqueue-keeps id cs queue seen)
  | inr new ↦ ground (
    arith,
    new,
    enqueue-keeps id cs (queue ++ c ∷ []) (c.file_id ∷ seen),
    is_item-append id queue (c ∷ []),
  )
]

-- the children are seen
enqueue-sees :
    (id : Bytes) (cs queue : List FileMetadata) (seen : List Bytes)
    → is_item id cs ≡ true
    → is_seen id (enqueue cs (queue, seen)).1 ≡ true
unfolding enqueue is_seen is_item
enqueue-sees id [] queue seen h = ground arith
enqueue-sees id (c ∷ cs) queue seen h = elim (Bool-cases (is_seen c.file_id seen)) [
  | inl old ↦ ground (
    arith,
    old,
    eq_iff c.file_id id,
    enqueue-sees id cs queue seen,
    enqueue-keeps id cs queue seen,
  )
  | inr new ↦ ground (
    arith,
    new,
    eq_iff c.file_id id,
    eq_refl id,
    enqueue-sees id cs (queue ++ c ∷ []) (c.file_id ∷ seen),
    enqueue-keeps id cs (queue ++ c ∷ []) (c.file_id ∷ seen),
  )
]

-- what is newly seen is in the queue
enqueue-queues :
    (id : Bytes) (cs queue : List FileMetadata) (seen : List Bytes)
    → is_seen id (enqueue cs (queue, seen)).1 ≡ true
    → (is_seen id seen || is_item id (enqueue cs (queue, seen)).0) ≡ true
unfolding enqueue is_seen is_item
enqueue-queues id [] queue seen h = ground arith
enqueue-queues id (c ∷ cs) queue seen h = elim (Bool-cases (is_seen c.file_id seen)) [
  | inl old ↦ ground (arith, old, enqueue-queues id cs queue seen)
  | inr new ↦ ground (
    arith,
    new,
    enqueue-queues id cs (queue ++ c ∷ []) (c.file_id ∷ seen),
    enqueue-keeps id cs (queue ++ c ∷ []) (c.file_id ∷ seen),
    is_item-append id queue (c ∷ []),
  )
]

map-some :
    (f : FileMetadata) (o : Option (List FileMetadata)) (fs : List FileMetadata)
    → Option.map (λ gs. f ∷ gs) o ≡ some fs
    → (gs : List FileMetadata) × ((o ≡ some gs) × (f ∷ gs ≡ fs))
map-some f none fs e = ground arith
map-some f (some gs) fs e = (gs, (refl, ground arith))

-- What is in the queue is collected.
walk-collects :
    (id : Bytes) (fuel : ℕ) (items queue : List FileMetadata) (seen : List Bytes)
    (fs : List FileMetadata)
    → walk fuel items (queue, seen) ≡ some fs
    → is_item id queue ≡ true
    → is_item id fs ≡ true
unfolding walk is_item
walk-collects id fuel items [] seen fs e h = ground arith
walk-collects id zero items (f ∷ queue) seen fs e h = ground arith
walk-collects id (suc fuel) items (f ∷ queue) seen fs e h =
    let qs = enqueue (children_in f.file_id items) (queue, seen) in
    let m = map-some f (walk fuel items qs) fs e in
    subst (λ gs. is_item id gs ≡ true) m.1.1
      (ground (
        arith,
        walk-collects id fuel items qs.0 qs.1 m.0 m.1.0,
        enqueue-keeps id (children_in f.file_id items) queue seen,
      ))

closed_step :
    (id child : Bytes) (f : FileMetadata) (items queue : List FileMetadata) (seen : List Bytes)
    (gs : List FileMetadata)
    → is_item id (f ∷ gs) ≡ true
    → is_item child (children_in id items) ≡ true
    → let qs = enqueue (children_in f.file_id items) (queue, seen) in
      (is_item id gs ≡ true
        → is_item child (children_in id items) ≡ true
        → (is_seen child qs.1 || is_item child gs) ≡ true)
      → (is_item child qs.0 ≡ true → is_item child gs ≡ true)
      → (is_seen child seen || is_item child (f ∷ gs)) ≡ true
unfolding is_item
closed_step id child f items queue seen gs h c later collected =
    elim (Bool-cases (f.file_id == id)) [
      | inl same ↦ ground (
        arith,
        same,
        enqueue-queues child (children_in f.file_id items) queue seen,
        enqueue-sees child (children_in f.file_id items) queue seen (
            subst (λ i. is_item child (children_in i items) ≡ true)
              (sym ((eq_iff f.file_id id).0 same)) c),
        collected,
      )
      | inr other ↦ ground (
        arith,
        other,
        h,
        later,
        c,
        enqueue-queues child (children_in f.file_id items) queue seen,
        collected,
      )
    ]

-- a child of a collected file is collected, or was seen before
walk-closed :
    (id child : Bytes) (fuel : ℕ) (items queue : List FileMetadata) (seen : List Bytes)
    (fs : List FileMetadata)
    → walk fuel items (queue, seen) ≡ some fs
    → is_item id fs ≡ true
    → is_item child (children_in id items) ≡ true
    → (is_seen child seen || is_item child fs) ≡ true
unfolding walk is_item
walk-closed id child fuel items [] seen fs e h c = ground arith
walk-closed id child zero items (f ∷ queue) seen fs e h c = ground arith
walk-closed id child (suc fuel) items (f ∷ queue) seen fs e h c =
    let qs = enqueue (children_in f.file_id items) (queue, seen) in
    let m = map-some f (walk fuel items qs) fs e in
    subst (λ gs. (is_seen child seen || is_item child gs) ≡ true) m.1.1
      (closed_step id child f items queue seen m.0
        (subst (λ gs. is_item id gs ≡ true) (sym m.1.1) h) c
        (walk-closed id child fuel items qs.0 qs.1 m.0 m.1.0)
        (walk-collects child fuel items qs.0 qs.1 m.0 m.1.0))

root-item : (root : FileMetadata) → is_item root.file_id (root ∷ []) ≡ true
unfolding is_item
root-item root = ground (arith, eq_refl root.file_id)

seen_root :
    (child : Bytes) (root : FileMetadata) (fs : List FileMetadata)
    → is_item root.file_id fs ≡ true
    → (is_seen child (root.file_id ∷ []) || is_item child fs) ≡ true
    → is_item child fs ≡ true
unfolding is_seen
seen_root child root fs self h = elim (Bool-cases (root.file_id == child)) [
  | inl same ↦ subst (λ i. is_item i fs ≡ true) ((eq_iff root.file_id child).0 same) self
  | inr other ↦ ground (arith, other, h)
]

-- The tree that RestoreFromTrash restores and PurgeFromTrash deletes holds the file itself, and with
-- each file that it holds everything in the recycle bin whose parent that file is.
pub tree_closed :
    (id child : Bytes) (items : List FileMetadata) (root : FileMetadata) (fs : List FileMetadata)
    → tree_of items root ≡ some fs
    → is_item id fs ≡ true
    → is_item child (children_in id items) ≡ true
    → (is_item root.file_id fs ≡ true) × (is_item child fs ≡ true)
unfolding tree_of
tree_closed id child items root fs e h c =
    let self =
      walk-collects root.file_id (length items + 1) items (root ∷ []) (root.file_id ∷ []) fs e
        (root-item root) in
    (
      self,
      seen_root child root fs self
          (walk-closed id child (length items + 1) items (root ∷ []) (root.file_id ∷ []) fs e h c),
    )
