-- ===== src/Upload/Trash/RoundTrip.antt =====
-- A file that goes to the recycle bin and comes back.
use fileupload.Upload.Delete.LastReference.{Answers}
use fileupload.World.{result, after, World}
use fileupload.Store.{restore_file, move_file_to_trash}
use fileupload.Domain.{ok, FileMetadata}
use fileupload.Meta.Files.{is_live, live_file, has_trashed, clear_deleted, set_deleted}
use fileupload.Base.{
  ◌+◌, Bool-cases, if◌then◌else◌, inr, not, inl, Option-cases, ◌&&◌, none, ◌==◌, refl, [], true,
  ◌∷◌, some, false, ◌≡◌, List, ℕ, Bytes, arith,
}

live_at : (f : FileMetadata) → is_live f ≡ true → f.deleted_at ≡ none
live_at f h = elim (Option-cases f.deleted_at) [ inl e ↦ e | inr (at, e) ↦ ground (arith, e, h) ]

-- a row that is put in the bin and taken out
row_back :
    (id : Bytes) (at : ℕ) (f : FileMetadata)
    → (f.file_id == id && not (is_live f)) ≡ false
    → let g = if f.file_id == id && is_live f then record f { deleted_at = some at } else f in
      (if g.file_id == id && not (is_live g) then record g { deleted_at = none } else g) ≡ f
row_back id at f h = elim (Bool-cases (f.file_id == id)) [
  | inl same ↦ ground (arith, same, live_at f, h)
  | inr other ↦ ground (arith, other)
]

clear-set_deleted :
    (id : Bytes) (at : ℕ) (fs : List FileMetadata)
    → has_trashed id fs ≡ false
    → clear_deleted id (set_deleted id at fs) ≡ fs
unfolding clear_deleted set_deleted has_trashed
clear-set_deleted id at [] h = refl
clear-set_deleted id at (f ∷ fs) h = ground (arith, row_back id at f, clear-set_deleted id at fs)

trashed-set_deleted :
    (id : Bytes) (at : ℕ) (fs : List FileMetadata) (f : FileMetadata)
    → live_file id fs ≡ some f
    → has_trashed id (set_deleted id at fs) ≡ true
unfolding set_deleted has_trashed live_file
trashed-set_deleted id at [] f e = ground arith
trashed-set_deleted id at (g ∷ fs) f e = ground (arith, trashed-set_deleted id at fs f)

-- A file that goes to the recycle bin and is restored is back in the tables as it was, and every
-- other row and every reference count is as it was, if no backend fails and no row of the same
-- identifier was in the bin.
pub trash-restore :
    (id : Bytes) (at : ℕ) (f : FileMetadata) (w : World)
    → Answers w
    → live_file id w.db.files ≡ some f
    → has_trashed id w.db.files ≡ false
    → let w' = after (move_file_to_trash id at) w in
      (result (move_file_to_trash id at) w ≡ ok tt)
      × (result (restore_file id) w' ≡ ok tt)
      × ((after (restore_file id) w').db ≡ w.db)
unfolding move_file_to_trash restore_file
trash-restore id at f w h live absent = ground (
  arith,
  h w.calls,
  h (w.calls + 1),
  live,
  clear-set_deleted id at w.db.files absent,
  trashed-set_deleted id at w.db.files f live,
)
