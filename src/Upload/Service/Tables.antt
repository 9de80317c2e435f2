-- ===== src/Upload/Service/Tables.antt =====
-- The operations that leave the reference counts alone.
use fileupload.Meta.Files.{is_live, clear_deleted, set_parent, rename_rows}
use fileupload.Upload.Trash.{restore_root, restore_all, restore_from_trash}
use fileupload.Upload.Move.{walk_next, walk_up, target_checks, check_target, move_file}
use fileupload.Upload.Delete.{rename, owned}
use fileupload.Meta.Files.Laws.{refs-update_where, update_where-IsKeyed}
use fileupload.Store.{get_file, list_trash, restore_file, rename_file, update_file_parent}
use fileupload.Store.Integrity.{IsCounted}
use fileupload.Domain.{invalid_argument, FileMetadata}
use fileupload.Base.{
  not, refl, ◌&&◌, Option, ◌∷◌, ◌==◌, ℕ, Bytes, List, none, some, zero, suc, [], update_where, ◌≡◌,
  Bool, arith,
}
use fileupload.World.{Exec, World}
use fileupload.World.Keeps.{Keeps-raise, Keeps-pure, Keeps-if, Keeps, Keeps-bind, keeps_rules}
use fileupload.Store.Counted.{get_file-Counted, Counted}

pub set_rows-Counted :
    (p : FileMetadata → Bool) (g : FileMetadata → FileMetadata) (w : World)
    → ((f : FileMetadata) → (g f).file_id ≡ f.file_id)
    → ((f : FileMetadata) → (g f).sha256 ≡ f.sha256)
    → IsCounted w.db
    → IsCounted (record w.db { files = update_where p g w.db.files })
set_rows-Counted p g w same_id same_sha h = record {
  keyed = update_where-IsKeyed p g same_id same_sha w.db.files h.keyed;
  covered =
      λ k hk. ground (arith, refs-update_where p g same_id same_sha k w.db.files, h.covered k hk);
}

rename_file-Counted : (id name path : Bytes) → Keeps Counted (rename_file id name path)
unfolding rename_file rename_rows
rename_file-Counted id name path = record {
  from = λ w h. ground (
    arith,
    set_rows-Counted (λ f. f.file_id == id) (λ f. record f { name = name; path = path }) w
        (λ f. refl) (λ f. refl) h,
  );
}

update_file_parent-Counted : (id parent : Bytes) → Keeps Counted (update_file_parent id parent)
unfolding update_file_parent set_parent
update_file_parent-Counted id parent = record {
  from = λ w h. ground (
    arith,
    set_rows-Counted (λ f. f.file_id == id) (λ f. record f { parent_id = parent }) w (λ f. refl)
        (λ f. refl) h,
  );
}

restore_file-Counted : (id : Bytes) → Keeps Counted (restore_file id)
unfolding restore_file clear_deleted
restore_file-Counted id = record {
  from = λ w h. ground (
    arith,
    set_rows-Counted (λ f. f.file_id == id && not (is_live f)) (λ f. record f { deleted_at = none })
        w (λ f. refl) (λ f. refl) h,
  );
}

list_trash-Counted : (ns : Bytes) → Keeps Counted (list_trash ns)
unfolding list_trash
list_trash-Counted ns = record { from = λ w h. ground arith }

pub owned-Counted : (ns : Bytes) (o : Option FileMetadata) → Keeps Counted (owned ns o)
unfolding owned
owned-Counted ns none = search keeps_rules
owned-Counted ns (some f) = search keeps_rules

pub rename-Counted : (id name path ns : Bytes) → Keeps Counted (rename id name path ns)
unfolding rename
rename-Counted id name path ns =
    search (keeps_rules, get_file-Counted, owned-Counted, rename_file-Counted)

walk_next-Counted :
    (up : FileMetadata → Exec (Unit {0})) (o : Option FileMetadata)
    → ((f : FileMetadata) → Keeps Counted (up f))
    → Keeps Counted (walk_next up o)
unfolding walk_next
walk_next-Counted up none k = search keeps_rules
walk_next-Counted up (some f) k = k f

walk_up-Counted :
    (fuel : ℕ) (id : Bytes) (seen : List Bytes) (f : FileMetadata)
    → Keeps Counted (walk_up fuel id seen f)
unfolding walk_up
walk_up-Counted zero id seen f = search keeps_rules
walk_up-Counted (suc fuel) id seen f = Keeps-if _ _ _ (Keeps-pure tt) (
    Keeps-if _ _ _ (Keeps-raise invalid_argument) (
      Keeps-if _ _ _ (Keeps-pure tt) (
        Keeps-bind (get_file f.parent_id) _ (get_file-Counted f.parent_id) (λ o.
          walk_next-Counted (walk_up fuel id (f.file_id ∷ seen)) o
            (walk_up-Counted fuel id (f.file_id ∷ seen))))))

target_checks-Counted :
    (id ns : Bytes) (o : Option FileMetadata) → Keeps Counted (target_checks id ns o)
unfolding target_checks
target_checks-Counted id ns none = search keeps_rules
target_checks-Counted id ns (some t) = search (keeps_rules, walk_up-Counted)

check_target-Counted : (id target ns : Bytes) → Keeps Counted (check_target id target ns)
unfolding check_target
check_target-Counted id target ns = search (keeps_rules, get_file-Counted, target_checks-Counted)

pub move_file-Counted : (id target ns : Bytes) → Keeps Counted (move_file id target ns)
unfolding move_file
move_file-Counted id target ns =
    search (
      keeps_rules, get_file-Counted, owned-Counted, check_target-Counted,
      update_file_parent-Counted,
    )

restore_all-Counted : (fs : List FileMetadata) → Keeps Counted (restore_all fs)
unfolding restore_all
restore_all-Counted [] = search keeps_rules
restore_all-Counted (f ∷ fs) =
    Keeps-bind (restore_file f.file_id) _ (restore_file-Counted f.file_id)
      (λ _. restore_all-Counted fs)

restore_root-Counted :
    (items : List FileMetadata) (o : Option FileMetadata) → Keeps Counted (restore_root items o)
unfolding restore_root
restore_root-Counted items none = search keeps_rules
restore_root-Counted items (some f) = search (keeps_rules, restore_all-Counted)

pub restore_from_trash-Counted : (id ns : Bytes) → Keeps Counted (restore_from_trash id ns)
unfolding restore_from_trash
restore_from_trash-Counted id ns = search (keeps_rules, list_trash-Counted, restore_root-Counted)
