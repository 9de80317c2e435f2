-- ===== src/Upload/Move/Acyclic.antt =====
-- A move that succeeds puts nothing under itself.
use std.Path.{subst}
use fileupload.Upload.Delete.References.{live_file-id, get_file-answered, get_file-failed}
use fileupload.World.Inversion.{bind-ok}
use fileupload.Upload.Move.Ancestors.{ancestor, walk_up-Apart, Apart, Trail}
use fileupload.Meta.Files.{live_file}
use fileupload.Upload.Isolation.{called}
use fileupload.Domain.{ok, FileMetadata}
use fileupload.Upload.Move.{check_target, move_file, walk_up, target_checks}
use fileupload.Upload.Trash.{is_seen}
use fileupload.Store.{get_file}
use fileupload.Upload.Delete.{owned}
use fileupload.Base.{
  sym, inr, if◌then◌else◌, inl, false, ◌==◌, ◌+◌, Bool-cases, length, is_empty, ℕ, refl, none, [],
  some, Option, List, ◌≡◌, Bytes, arith,
}
use fileupload.World.{pure, World, after, result}

get_file-after : (id : Bytes) (w : World) → after (get_file id) w ≡ called w
unfolding get_file
get_file-after id w = ground arith

get_file-ok :
    (id : Bytes) (w : World) (o : Option FileMetadata)
    → result (get_file id) w ≡ ok o
    → live_file id w.db.files ≡ o
unfolding get_file
get_file-ok id w o e = ground arith

owned-after : (ns : Bytes) (o : Option FileMetadata) (w : World) → after (owned ns o) w ≡ w
unfolding owned
owned-after ns none w = refl
owned-after ns (some f) w = ground arith

first-Trail :
    (id : Bytes) (fs : List FileMetadata) (t : FileMetadata)
    → live_file t.file_id fs ≡ some t
    → Trail id fs [] t
unfolding is_seen
first-Trail id fs t row = record {
  row = row;
  other = λ s h. ground (arith, h);
  up = λ s f p h r e. ground (arith, h);
}

checks-walk :
    (id ns : Bytes) (t : FileMetadata) (w : World) (u : Unit {0})
    → result (target_checks id ns (some t)) w ≡ ok u
    → result (walk_up (length w.db.files + 1) id [] t) w ≡ ok u
unfolding target_checks
checks-walk id ns t w u r = ground (arith, r)

target-checks :
    (id target ns : Bytes) (w : World) (u : Unit {0})
    → result (check_target id target ns) w ≡ ok u
    → result (target_checks id ns (live_file target w.db.files)) (called w) ≡ ok u
unfolding check_target
target-checks id target ns w u r = elim (Bool-cases (target == id)) [
  | inl same ↦ ground (arith, same, r)
  | inr other ↦ elim (Bool-cases (w.fails w.calls)) [
    | inl down ↦ ground (arith, other, get_file-failed target w down, r)
    | inr up ↦ ground (arith, other, get_file-answered target w up, r)
  ]
]

target-Apart :
    (id target ns : Bytes) (t : FileMetadata) (w : World) (u : Unit {0})
    → live_file [] w.db.files ≡ none
    → live_file target w.db.files ≡ some t
    → result (check_target id target ns) w ≡ ok u
    → Apart id w.db.files (some t)
target-Apart id target ns t w u named found r =
    walk_up-Apart (length w.db.files + 1) id [] t (called w) u named
      (first-Trail id w.db.files t (
        subst (λ i. live_file i w.db.files ≡ some t) (sym (live_file-id target w.db.files t found))
          found))
      (checks-walk id ns t (called w) u (
        subst (λ o. result (target_checks id ns o) (called w) ≡ ok u) found
          (target-checks id target ns w u r)))

move-target :
    (id target ns : Bytes) (w : World) (u : Unit {0})
    → is_empty target ≡ false
    → result (move_file id target ns) w ≡ ok u
    → (u' : Unit {0}) × (result (check_target id target ns) (called w) ≡ ok u')
unfolding move_file
move-target id target ns w u some_dir r =
    let b₁ = bind-ok (get_file id) _ w u r in
    let b₂ = bind-ok (owned ns b₁.0) _ (after (get_file id) w) u b₁.1.1 in
    let b₃ =
      bind-ok (if is_empty target then pure tt else check_target id target ns) _
        (after (owned ns b₁.0) (after (get_file id) w)) u b₂.1.1 in
    (
      b₃.0,
      ground (
        arith,
        some_dir,
        b₃.1.0,
        owned-after ns b₁.0 (after (get_file id) w),
        get_file-after id w,
      ),
    )

-- If MoveFile succeeds with a live target directory, the file that is moved is neither that directory nor
-- one of the directories above it, as far as the chain of live parents goes; a parent in the recycle bin
-- ends the chain. No live row has an empty identifier.
pub move_file_acyclic :
    (id target ns : Bytes) (t g : FileMetadata) (n : ℕ) (w : World) (u : Unit {0})
    → is_empty target ≡ false
    → live_file [] w.db.files ≡ none
    → live_file target w.db.files ≡ some t
    → result (move_file id target ns) w ≡ ok u
    → ancestor n w.db.files (some t) ≡ some g
    → g.file_id == id ≡ false
move_file_acyclic id target ns t g n w u some_dir named found r =
    let m = move-target id target ns w u some_dir r in
    target-Apart id target ns t (called w) m.0 named found m.1 n g
