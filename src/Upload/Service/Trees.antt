-- ===== src/Upload/Service/Trees.antt =====
-- The operations on directories and on several files that leave the reference counts alone.
use fileupload.Upload.Move.{move_file}
use fileupload.Upload.Service.Tables.{move_file-Counted, owned-Counted, set_rows-Counted}
use fileupload.Store.Counted.{get_file-Counted, Counted}
use fileupload.World.Keeps.{
  Keeps-require, Keeps-ignore, Keeps-attempt, Keeps-bind, Keeps-raise, Keeps-pure, keeps_rules,
  Keeps-if, Keeps,
}
use fileupload.World.{pure, attempt, ignore, Exec}
use fileupload.Meta.Files.{is_live, set_deleted}
use fileupload.Store.{get_file, list_children, move_file_to_trash}
use fileupload.Batch.{
  tally, found_in, BatchResult, check_target_dir, batch_move, move_each, delete_each, batch_delete,
}
use fileupload.Upload.Trees.Bin.{trash_now, trash_children, for_each, trash_tree, trash}
use fileupload.Base.{
  if◌then◌else◌, refl, ◌&&◌, [], ◌==◌, ◌∷◌, arith, Bytes, List, ℕ, some, zero, suc,
}
use fileupload.Domain.{returns, not_found, out_of_fuel, FileMetadata, err}

move_to_trash-Counted : (id : Bytes) (at : ℕ) → Keeps Counted (move_file_to_trash id at)
unfolding move_file_to_trash set_deleted
move_to_trash-Counted id at = record {
  from = λ w h. ground (
    arith,
    set_rows-Counted (λ f. f.file_id == id && is_live f) (λ f. record f { deleted_at = some at }) w
        (λ f. refl) (λ f. refl) h,
  );
}

list_children-Counted : (id : Bytes) → Keeps Counted (list_children id)
unfolding list_children
list_children-Counted id = record { from = λ w h. ground arith }

for_each-Counted :
    (go : FileMetadata → Exec (Unit {0})) (cs : List FileMetadata)
    → ((c : FileMetadata) → Keeps Counted (go c))
    → Keeps Counted (for_each go cs)
unfolding for_each
for_each-Counted go [] k = Keeps-pure tt
for_each-Counted go (c ∷ cs) k = Keeps-bind (go c) _ (k c) (λ _. for_each-Counted go cs k)

trash_children-Counted :
    (go : FileMetadata → Exec (Unit {0})) (f : FileMetadata)
    → ((c : FileMetadata) → Keeps Counted (go c))
    → Keeps Counted (trash_children go f)
unfolding trash_children
trash_children-Counted go f k =
    Keeps-if f.is_dir _ _
      (Keeps-bind (list_children f.file_id) _ (list_children-Counted f.file_id)
        (λ cs. for_each-Counted go cs k))
      (Keeps-pure tt)

trash_tree-Counted : (fuel at : ℕ) (f : FileMetadata) → Keeps Counted (trash_tree fuel at f)
unfolding trash_tree
trash_tree-Counted zero at f = Keeps-raise out_of_fuel
trash_tree-Counted (suc fuel) at f =
    Keeps-bind (trash_children (trash_tree fuel at) f) _
      (trash_children-Counted (trash_tree fuel at) f (trash_tree-Counted fuel at))
      (λ _. move_to_trash-Counted f.file_id at)

trash_now-Counted : (fuel : ℕ) (f : FileMetadata) → Keeps Counted (trash_now fuel f)
unfolding trash_now
trash_now-Counted fuel f = search (keeps_rules, trash_tree-Counted)

pub trash-Counted : (fuel : ℕ) (id ns : Bytes) → Keeps Counted (trash fuel id ns)
unfolding trash
trash-Counted fuel id ns = search (keeps_rules, get_file-Counted, owned-Counted, trash_now-Counted)

delete_each-Counted :
    (fuel : ℕ) (ns : Bytes) (ids : List Bytes) (r : BatchResult)
    → Keeps Counted (delete_each fuel ns ids r)
unfolding delete_each
delete_each-Counted fuel ns [] r = Keeps-pure r
delete_each-Counted fuel ns (id ∷ ids) r =
    Keeps-bind (attempt (get_file id)) _ (Keeps-attempt _ (get_file-Counted id)) (λ found.
      Keeps-bind (if found_in ns found then attempt (trash fuel id ns) else pure (err not_found)) _
        (Keeps-if (found_in ns found) _ _ (Keeps-attempt _ (trash-Counted fuel id ns))
          (Keeps-pure (err not_found)))
        (λ t.
          Keeps-bind _ _ (Keeps-require (returns t) out_of_fuel)
            (λ _. delete_each-Counted fuel ns ids (tally t r))))

pub batch_delete-Counted :
    (fuel : ℕ) (ids : List Bytes) (ns : Bytes) → Keeps Counted (batch_delete fuel ids ns)
unfolding batch_delete
batch_delete-Counted fuel ids ns =
    delete_each-Counted fuel ns ids (record { success = 0; failed = 0 })

check_target_dir-Counted : (target ns : Bytes) → Keeps Counted (check_target_dir target ns)
unfolding check_target_dir
check_target_dir-Counted target ns = search (keeps_rules, get_file-Counted, owned-Counted)

move_each-Counted : (ids : List Bytes) (target ns : Bytes) → Keeps Counted (move_each ids target ns)
unfolding move_each
move_each-Counted [] target ns = Keeps-pure tt
move_each-Counted (id ∷ ids) target ns =
    Keeps-bind (ignore (move_file id target ns)) _ (Keeps-ignore _ (move_file-Counted id target ns))
      (λ _. move_each-Counted ids target ns)

pub batch_move-Counted :
    (ids : List Bytes) (target ns : Bytes) → Keeps Counted (batch_move ids target ns)
unfolding batch_move
batch_move-Counted ids target ns = search (keeps_rules, check_target_dir-Counted, move_each-Counted)
