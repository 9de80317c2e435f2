-- ===== src/Upload/Move/Ends.antt =====
-- The walk of MoveFile over the parents ends, even if they form a cycle.
use fileupload.Upload.Delete.References.{get_file-answered, get_file-failed}
use fileupload.Upload.Move.Ancestors.{parent-row}
use fileupload.Store.{get_file}
use fileupload.Upload.Trash.{is_seen}
use fileupload.Upload.Isolation.{called}
use fileupload.Upload.Trash.Termination.{unseen-length, unseen-item, unseen, is_item}
use fileupload.Domain.{out_of_fuel, err, FileMetadata}
use fileupload.Upload.Move.{walk_up, walk_next}
use fileupload.Meta.Files.{live_file}
use fileupload.Base.{
  Option-cases, inr, refl, inl, zero, Bool-cases, is_empty, false, [], ◌≢◌, ◌∷◌, true, length, ◌≤◌,
  Option, some, ◌+◌, suc, ◌≡◌, List, Bytes, ℕ, arith,
}
use fileupload.World.{Exec, World, result, ◌>>=◌}

live-is_item :
    (id : Bytes) (fs : List FileMetadata) (f : FileMetadata)
    → live_file id fs ≡ some f
    → is_item id fs ≡ true
unfolding live_file is_item
live-is_item id [] f e = ground arith
live-is_item id (g ∷ fs) f e = ground (arith, live-is_item id fs f)

next_ends :
    (up : FileMetadata → Exec (Unit {0})) (key : Bytes) (o : Option FileMetadata) (w : World)
    → live_file key w.db.files ≡ o
    → ((p : FileMetadata) → o ≡ some p → result (up p) (called w) ≢ err out_of_fuel)
    → result (get_file key >>= walk_next up) w ≢ err out_of_fuel
unfolding walk_next
next_ends up key o w e later r = elim (Bool-cases (w.fails w.calls)) [
  | inl down ↦ ground (arith, get_file-failed key w down, r)
  | inr answered ↦ elim (Option-cases o) [
    | inl none_found ↦ ground (arith, get_file-answered key w answered, e, none_found, r)
    | inr (p, is_p) ↦
        absurd (later p is_p (ground (arith, get_file-answered key w answered, e, is_p, r)))
  ]
]

walk_goes_on :
    (fuel : ℕ) (id : Bytes) (seen : List Bytes) (cur : FileMetadata) (w : World)
    → result (walk_up (suc fuel) id seen cur) w ≡ err out_of_fuel
    → (is_seen cur.file_id seen ≡ false)
      × (is_empty cur.parent_id ≡ false)
      × (result (get_file cur.parent_id >>= walk_next (walk_up fuel id (cur.file_id ∷ seen))) w
          ≡ err out_of_fuel)
unfolding walk_up
walk_goes_on fuel id seen cur w r = ground (arith, r)

walk_up_ends :
    (fuel : ℕ) (id : Bytes) (seen : List Bytes) (cur : FileMetadata) (w : World)
    → unseen seen w.db.files + 1 ≤ fuel
    → live_file cur.file_id w.db.files ≡ some cur
    → result (walk_up fuel id seen cur) w ≢ err out_of_fuel
walk_up_ends zero id seen cur w enough row r = absurd (omega arith)
walk_up_ends (suc fuel) id seen cur w enough row r =
    let s = walk_goes_on fuel id seen cur w r in
    next_ends (walk_up fuel id (cur.file_id ∷ seen)) cur.parent_id
      (live_file cur.parent_id w.db.files) w refl
      (λ p is_p.
        walk_up_ends fuel id (cur.file_id ∷ seen) p (called w)
          (omega (
            arith,
            enough,
            unseen-item cur.file_id seen w.db.files (live-is_item cur.file_id w.db.files cur row)
                s.0,
          ))
          (parent-row w.db.files cur p (ground (arith, s.1, is_p))))
      s.2

-- From a target that is in the table of files, the fuel of the walk over its parents is enough:
-- the walk never runs out of it, whatever the parents are.
pub ancestors_end :
    (id : Bytes) (t : FileMetadata) (w : World)
    → live_file t.file_id w.db.files ≡ some t
    → result (walk_up (length w.db.files + 1) id [] t) w ≢ err out_of_fuel
ancestors_end id t w row =
    walk_up_ends (length w.db.files + 1) id [] t w (omega (arith, unseen-length [] w.db.files)) row
