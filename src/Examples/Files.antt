-- ===== src/Examples/Files.antt =====
-- The theorems on files and their names, applied in the office.
use fileupload.Download.{FileReader, DownloadRange, download_file}
use fileupload.Download.Range.{download-IsExact, IsExact, IsSized}
use fileupload.Upload.Trash.RoundTrip.{trash-restore}
use fileupload.Examples.Office.{hello, top, shaken, folder, binned, office, shelf, report, shelves}
use fileupload.Upload.Move.Ends.{ancestors_end}
use fileupload.Upload.Move.Acyclic.{move_file_acyclic}
use fileupload.Upload.Move.{walk_up, move_file}
use fileupload.Upload.Move.Ancestors.{ancestor}
use fileupload.Upload.Names.Clean.{safe_storage_name-clean}
use fileupload.Upload.Trash.Closure.{tree_closed}
use fileupload.Upload.Trash.Termination.{tree_total, is_item}
use fileupload.Upload.Delete.Rollback.{purge_loses_reference, LosesCount}
use fileupload.Upload.Names.Relative.{safe_path-resolve}
use fileupload.Upload.Trash.{tree_of}
use fileupload.Upload.Delete.LastReference.{last_reference_found}
use fileupload.Upload.Names.{safe_storage_name, has_byte, base_name}
use fileupload.Storage.Paths.{resolve}
use fileupload.Store.{
  restore_file, move_file_to_trash, get_blob_by_sha, set_files, put_file, acquire_row, acquire_blob,
}
use fileupload.Storage.LocalFs.{object_at}
use fileupload.Upload.Delete.{purge_row, delete_row, delete_file_for}
use fileupload.Meta.Blobs.{has_blob, blob_by_sha, count_of}
use fileupload.Meta.Files.{has_trashed, live_file, has_id, refs}
use fileupload.Domain.{out_of_fuel, backend, err, ok, FileMetadata}
use fileupload.Base.{
  ◌-◌, ◌≢◌, ◌==◌, length, ◌+◌, eqb, List, ◌≤◌, ltb_ℤ, ◌<◌, Bool, sort_by, map, ◌↔◌, true,
  if◌then◌else◌, ◌≡◌, refl, eq_iff, some, Option, none, false, ◌++◌, [], pos, Bytes, ◌∷◌, arith,
  bytes,
}
use fileupload.World.{result, after}

report_found : blob_by_sha (bytes "sha-hello") office.db.blobs ≡ some hello
unfolding blob_by_sha fileupload.Base.◌==◌
report_found = refl

hello_resolved : resolve (bytes "team/s0-report.txt") ≡ ok (bytes "team/s0-report.txt")
unfolding resolve fileupload.Base.◌==◌
hello_resolved = refl

last_reference_found_example :
    let w' = after (delete_row report) office in
    (object_at (bytes "team/s0-report.txt") w'.disk ≡ none)
    × (result (get_blob_by_sha (bytes "sha-hello")) w' ≡ ok (some (record hello { ref_count = 0 })))
    × (result (acquire_blob hello) w' ≡ ok (bytes "team/s0-report.txt", false))
last_reference_found_example =
    last_reference_found report hello hello (bytes "team/s0-report.txt") office (λ n. refl) refl
      report_found (omega arith) hello_resolved refl

shaken-LosesCount : LosesCount shaken
shaken-LosesCount = record { deletes = refl; updates = refl; reads = refl; restores = refl }

hello_known : has_blob (bytes "sha-hello") shaken.db.blobs ≡ true
unfolding has_blob ◌==◌
hello_known = refl

report_live : live_file (bytes "f1") shaken.db.files ≡ some report
unfolding live_file ◌==◌
report_live = refl

hello_counted : 0 < count_of (bytes "sha-hello") shaken.db.blobs
unfolding count_of ◌==◌
hello_counted = omega arith

-- the file as the recycle bin listed it, before its row was restored
abbrev listed_report : FileMetadata
listed_report = record report { deleted_at = some 950 }

purge_loses_reference_example :
    (result (purge_row listed_report) shaken ≡ err backend)
    × (refs (bytes "sha-hello") (after (purge_row listed_report) shaken).db.files
        ≡ refs (bytes "sha-hello") shaken.db.files)
    × (count_of (bytes "sha-hello") (after (purge_row listed_report) shaken).db.blobs + 1
        ≡ count_of (bytes "sha-hello") shaken.db.blobs)
unfolding has_id
purge_loses_reference_example =
    purge_loses_reference listed_report report shaken refl hello_known hello_counted report_live
      refl (refl, tt) shaken-LosesCount

folder_tree : tree_of (binned ∷ folder ∷ []) folder ≡ some (folder ∷ binned ∷ [])
unfolding tree_of ◌==◌
folder_tree = refl

tree_closed_example :
    (is_item (bytes "d1") (folder ∷ binned ∷ []) ≡ true)
    × (is_item (bytes "f1") (folder ∷ binned ∷ []) ≡ true)
unfolding is_item ◌==◌ fileupload.Upload.Trash.children_in
tree_closed_example =
    tree_closed (bytes "d1") (bytes "f1") (binned ∷ folder ∷ []) folder (folder ∷ binned ∷ [])
      folder_tree refl refl

tree_total_example : (fs : List FileMetadata) × (tree_of (binned ∷ folder ∷ []) folder ≡ some fs)
tree_total_example = tree_total (binned ∷ folder ∷ []) folder

safe_path-resolve_example : resolve (bytes "docs/report.txt") ≡ ok (bytes "docs/report.txt")
unfolding fileupload.Upload.Names.is_safe_relative_path ◌==◌
safe_path-resolve_example = safe_path-resolve (bytes "docs/report.txt") refl

safe_storage_name-clean_example : has_byte 58 (safe_storage_name (bytes "a:b/c:d")) ≡ false
unfolding fileupload.Upload.Names.is_reserved fileupload.Upload.Names.trim_right
safe_storage_name-clean_example = safe_storage_name-clean 58 (bytes "a:b/c:d") refl refl

shelf_live : live_file (bytes "d2") shelves.db.files ≡ some shelf
unfolding live_file ◌==◌
shelf_live = refl

no_unnamed : live_file [] shelves.db.files ≡ none
unfolding live_file ◌==◌
no_unnamed = refl

report_moved : result (move_file (bytes "f1") (bytes "d2") (bytes "team")) shelves ≡ ok tt
unfolding move_file fileupload.Store.get_file fileupload.Upload.Delete.owned live_file ◌==◌
    fileupload.Upload.Trash.is_seen fileupload.Store.update_file_parent
report_moved = refl

top_above : ancestor 1 shelves.db.files (some shelf) ≡ some top
unfolding ancestor live_file ◌==◌
top_above = refl

move_file_acyclic_example : top.file_id == bytes "f1" ≡ false
move_file_acyclic_example =
    move_file_acyclic (bytes "f1") (bytes "d2") (bytes "team") shelf top 1 shelves tt refl
      no_unnamed shelf_live report_moved top_above

ancestors_end_example : result (walk_up 4 (bytes "f1") [] shelf) shelves ≢ err out_of_fuel
ancestors_end_example = ancestors_end (bytes "f1") shelf shelves shelf_live

report_not_in_bin : has_trashed (bytes "f1") office.db.files ≡ false
unfolding has_trashed ◌==◌
report_not_in_bin = refl

report_in_office : live_file (bytes "f1") office.db.files ≡ some report
unfolding live_file ◌==◌
report_in_office = refl

trash-restore_example :
    let w' = after (move_file_to_trash (bytes "f1") 1000) office in
    (result (move_file_to_trash (bytes "f1") 1000) office ≡ ok tt)
    × (result (restore_file (bytes "f1")) w' ≡ ok tt)
    × ((after (restore_file (bytes "f1")) w').db ≡ office.db)
trash-restore_example =
    trash-restore (bytes "f1") 1000 report office (λ n. refl) report_in_office report_not_in_bin

-- more is asked for than there is
abbrev excerpt : DownloadRange
excerpt = record { offset = pos 1; length = pos 9; requested = true }

abbrev reader : FileReader
reader = record {
  file = report;
  blob = hello;
  content = bytes "ello";
  file_size = 5;
  range = record { offset = pos 1; length = pos 4; requested = true };
}

excerpt_read : result (download_file (bytes "f1") (bytes "team") excerpt) office ≡ ok reader
unfolding download_file fileupload.Store.get_file live_file ◌==◌ get_blob_by_sha blob_by_sha
    fileupload.Storage.LocalFs.open_object resolve object_at
excerpt_read = refl

hello_found : object_at (bytes "team/s0-report.txt") office.disk ≡ some (bytes "hello")
unfolding object_at ◌==◌
hello_found = refl

hello-IsSized : IsSized hello office.disk
hello-IsSized = λ p c e o. ground (arith, hello_resolved, hello_found, e, o)

download-IsExact_example : IsExact reader office.disk
download-IsExact_example =
    download-IsExact (bytes "f1") (bytes "team") excerpt 9 office reader refl hello-IsSized
      excerpt_read
