-- ===== src/Upload/Trees/Ends.antt =====
-- The recursion of Trash ends, where the directories form no cycle.
use fileupload.World.Avoids.{Avoids-bind, Avoids-pure, Avoids}
use fileupload.Store.{by_name, list_children, move_file_to_trash}
use fileupload.Domain.{err, out_of_fuel, DomainError, FileMetadata}
use fileupload.Meta.Files.{live_file, is_live, children_of, set_deleted}
use fileupload.Upload.Trees.Bin.{for_each, trash_children, trash_tree}
use fileupload.World.{result, Exec, World, ◌>>=◌}
use std.Path.{subst}
use fileupload.Base.{
  ◌+◌, All-weaken, All-sort_by, eq_iff, sort_by, not, Option-cases, inr, ◌&&◌, zero, [], inl, ◌≢◌,
  ◌==◌, false, Bool-cases, All-select_cons, ◌<◌, suc, ◌∷◌, ◌≡◌, is_empty, arith, All, ℕ, List,
  Bytes,
}

-- the rank of a file in a directory is less than that of the directory
abbrev pub IsRanked : (Bytes → ℕ) → FileMetadata → Type 0
IsRanked rank f = is_empty f.parent_id ≡ false → rank f.file_id < rank f.parent_id

-- no cycle of parents
abbrev pub Ranked : (Bytes → ℕ) → World → Type 0
Ranked rank w = All (IsRanked rank) w.db.files

set_deleted-Ranked :
    (rank : Bytes → ℕ) (id : Bytes) (at : ℕ) (fs : List FileMetadata)
    → All (IsRanked rank) fs
    → All (IsRanked rank) (set_deleted id at fs)
unfolding set_deleted
set_deleted-Ranked rank id at [] h = tt
set_deleted-Ranked rank id at (f ∷ fs) h = (
  elim (Bool-cases (f.file_id == id && is_live f)) [ inl e ↦ rw e h.0 | inr e ↦ rw e h.0 ],
  set_deleted-Ranked rank id at fs h.1,
)

-- what is listed in a directory has a lower rank
pub children_of-lower :
    (rank : Bytes → ℕ) (id : Bytes) (fs : List FileMetadata)
    → All (IsRanked rank) fs
    → All (λ c. rank c.file_id < rank id) (children_of id fs)
unfolding children_of
children_of-lower rank id [] h = tt
children_of-lower rank id (f ∷ fs) h =
    All-select_cons (λ c. rank c.file_id < rank id)
      (λ c. c.parent_id == id && (not (is_empty c.parent_id) && is_live c)) f fs
      (λ e.
        let here : f.parent_id ≡ id = ground (arith, eq_iff f.parent_id id) in
        let inside : is_empty f.parent_id ≡ false = ground arith in
        subst (λ p. rank f.file_id < rank p) here (h.0 inside))
      (children_of-lower rank id fs h.1)

for_each-Avoids :
    {x : DomainError} {P : World → Type 0} (go : FileMetadata → Exec (Unit {0}))
    (cs : List FileMetadata)
    → All (λ c. Avoids x P (go c)) cs
    → Avoids x P (for_each go cs)
unfolding for_each
for_each-Avoids go [] h = Avoids-pure tt
for_each-Avoids go (c ∷ cs) h = Avoids-bind (go c) _ h.0 (λ _. for_each-Avoids go cs h.1)

module _ (rank : Bytes → ℕ) where
  -- what the recursion is to do with the files of a lower rank
  abbrev pub EndsBelow : ℕ → (FileMetadata → Exec (Unit {0})) → Type 0
  EndsBelow n go = (c : FileMetadata) → rank c.file_id < n → Avoids out_of_fuel (Ranked rank) (go c)

  list-Avoids :
      (go : FileMetadata → Exec (Unit {0})) (id : Bytes)
      → EndsBelow (rank id) go
      → Avoids out_of_fuel (Ranked rank) (list_children id >>= for_each go)
  unfolding list_children
  list-Avoids go id below = record {
    from = λ w h. elim (Bool-cases (w.fails w.calls)) [
      | inl down ↦ rw down (record { safe = λ e. cc; kept = h })
      | inr up ↦ rw up (
          (for_each-Avoids go (sort_by by_name (children_of id w.db.files)) (
              All-sort_by _ by_name (children_of id w.db.files) (
                All-weaken (λ c. rank c.file_id < rank id)
                  (λ c. Avoids out_of_fuel (Ranked rank) (go c)) (λ c lower. below c lower)
                  (children_of id w.db.files) (children_of-lower rank id w.db.files h)))).from
            (record w { calls = w.calls + 1 }) h)
    ];
  }

  move-Avoids : (id : Bytes) (at : ℕ) → Avoids out_of_fuel (Ranked rank) (move_file_to_trash id at)
  unfolding move_file_to_trash
  move-Avoids id at = record {
    from = λ w h. elim (Bool-cases (w.fails w.calls)) [
      | inl down ↦ rw down (record { safe = λ e. cc; kept = h })
      | inr up ↦ elim (Option-cases (live_file id w.db.files)) [
        | inl absent ↦
            rw (up, absent)
              (record { safe = λ e. cc; kept = set_deleted-Ranked rank id at w.db.files h })
        | inr (f, there) ↦
            rw (up, there)
              (record { safe = λ e. cc; kept = set_deleted-Ranked rank id at w.db.files h })
      ]
    ];
  }

  children-Avoids :
      (go : FileMetadata → Exec (Unit {0})) (f : FileMetadata)
      → EndsBelow (rank f.file_id) go
      → Avoids out_of_fuel (Ranked rank) (trash_children go f)
  unfolding trash_children
  children-Avoids go f below = elim (Bool-cases f.is_dir) [
    | inl dir ↦ rw dir (list-Avoids go f.file_id below)
    | inr file ↦ rw file (Avoids-pure tt)
  ]

  pub trash_tree-Avoids : (fuel at : ℕ) → EndsBelow fuel (trash_tree fuel at)
  unfolding trash_tree
  trash_tree-Avoids zero at = λ f lower. absurd (omega arith)
  trash_tree-Avoids (suc fuel) at = λ f lower.
      Avoids-bind (trash_children (trash_tree fuel at) f) _
        (children-Avoids (trash_tree fuel at) f
          (λ c less. trash_tree-Avoids fuel at c (omega arith)))
        (λ _. move-Avoids f.file_id at)

-- If the files can be ranked such that each is below its directory, then trashTree ends: fuel above the
-- rank of its root does not run out, whichever backend calls fail.
pub trash_tree_ends :
    (rank : Bytes → ℕ) (fuel at : ℕ) (f : FileMetadata) (w : World)
    → All (IsRanked rank) w.db.files
    → rank f.file_id < fuel
    → result (trash_tree fuel at f) w ≢ err out_of_fuel
trash_tree_ends rank fuel at f w h enough =
    ((trash_tree-Avoids rank fuel at f enough).from w h).safe
