-- ===== src/Examples/Trees.antt =====
-- The theorems on directories, downloads and background jobs, applied in the office.
use fileupload.Upload.Isolation.{called}
use fileupload.Store.Pages.Cover.{list_children_page-index}
use fileupload.Download.Lookup.Batched.{get_files-get_file}
use fileupload.Download.Bundle.{name_entries}
use fileupload.Upload.Trash.{is_seen, item_by_id}
use fileupload.Upload.Trees.Orphans.{trash-IsRooted}
use fileupload.Lifecycle.Reaper.Collects.{reap_collects}
use fileupload.Store.Pages.{list_children_page}
use fileupload.Upload.Trees.Ends.{trash_tree_ends, IsRanked}
use fileupload.Download.Directory.TotalSize.{manifest-total_size, over}
use fileupload.Upload.Trees.Rooted.{Fewer, IsRooted}
use fileupload.Upload.Trees.Contents.{delete_dir_deferred-disk}
use fileupload.Lifecycle.Reaper.Safety.{IsClean}
use fileupload.Download.Ancestors.{Ends, IsLineage, ancestors-IsChain, get_ancestors}
use fileupload.Download.Lookup.{get_files_by_ids}
use fileupload.Meta.Blobs.{has_blob}
use fileupload.Examples.Office.{hello, digest_of, shelves, office, report, top}
use fileupload.Storage.Paths.{resolve}
use fileupload.Meta.Files.Pages.{page_order, matching}
use fileupload.Domain.{backend, out_of_fuel, ok, err, FileMetadata}
use fileupload.Meta.Sessions.{live_session}
use fileupload.Lifecycle.Reaper.{reap, first_part}
use fileupload.Download.Bundle.NameClash.{
  entry_names, names_of, distinct_names, second_name, all_known,
}
use fileupload.Meta.Files.{children_of, has_id, live_file}
use fileupload.World.{World, result, after}
use fileupload.Download.Directory.{get_dir_manifest, get_dir_total_size}
use fileupload.Storage.LocalFs.{object_at}
use fileupload.Upload.Trees.Erase.{delete_dir_deferred}
use fileupload.Upload.Trees.Bin.{trash_tree, trash}
use fileupload.Base.{
  sort_by, ◌%◌, get_elem?, ◌+◌, ◌≤◌, ◌/◌, pos, false, length, eq_iff, refl, is_empty, map, ◌≢◌,
  none, arith, eqb, some, ◌<◌, [], ◌≡◌, true, ◌∷◌, All, if◌then◌else◌, Bool, ◌==◌, bytes, ℕ, List,
  Bytes,
}

shelves-IsRooted : IsRooted shelves.db.files
unfolding live_file has_id ◌==◌
shelves-IsRooted = record {
  keyed = (refl, (refl, (refl, tt)));
  parents = λ id f e inside. (
    top,
    ground (arith, eq_iff (bytes "f1") id, eq_iff (bytes "d1") id, eq_iff (bytes "d2") id),
    refl,
  );
}

trash-IsRooted_example :
    let o = trash 3 (bytes "d1") (bytes "team") shelves in
    IsRooted o.1.db.files
    × Fewer shelves.db.files o.1.db.files
    × (o.0 ≡ ok tt → live_file (bytes "d1") o.1.db.files ≡ none)
trash-IsRooted_example = trash-IsRooted 3 (bytes "d1") (bytes "team") shelves shelves-IsRooted

abbrev height : Bytes → ℕ
height id = if id == bytes "d1" then 1 else 0

shelves-IsRanked : All (IsRanked height) shelves.db.files
unfolding ◌==◌
shelves-IsRanked = (λ e. cc, (λ e. cc, (λ e. omega arith, tt)))

low : height (bytes "d1") < 2
unfolding ◌==◌
low = omega arith

trash_tree_ends_example : result (trash_tree 2 1000 top) shelves ≢ err out_of_fuel
trash_tree_ends_example = trash_tree_ends height 2 1000 top shelves shelves-IsRanked low

-- the third call of a backend fails
abbrev shaken_shelves : World
shaken_shelves = record shelves { fails = λ n. eqb n 2 }

purge_fails : result (delete_dir_deferred 3 (bytes "team") top) shaken_shelves ≡ err backend
unfolding delete_dir_deferred ◌==◌ fileupload.Store.list_children sort_by children_of
    fileupload.Store.delete_file
purge_fails = refl

delete_dir_deferred-disk_example :
    (after (delete_dir_deferred 3 (bytes "team") top) shaken_shelves).disk ≡ shaken_shelves.disk
delete_dir_deferred-disk_example =
    delete_dir_deferred-disk 3 (bytes "team") top shaken_shelves backend purge_fails

top_live : live_file (bytes "d1") shelves.db.files ≡ some top
unfolding live_file ◌==◌
top_live = refl

manifest-total_size_example :
    get_dir_total_size 3 (bytes "d1") (called shelves)
    ≡ over (λ d. d.total_size) (get_dir_manifest digest_of 3 (bytes "d1") (bytes "team") shelves)
manifest-total_size_example =
    manifest-total_size digest_of 3 (bytes "d1") (bytes "team") top shelves refl top_live refl refl

ancestors-IsChain_example :
    (fs : List FileMetadata) × (result (get_ancestors (bytes "d2")) shelves ≡ ok fs)
    × IsLineage (bytes "d2") fs shelves
    × (length fs ≤ 100)
    × Ends (bytes "d2") fs shelves
ancestors-IsChain_example = ancestors-IsChain (bytes "d2") shelves

get_files-get_file_example :
    (rows : List FileMetadata) × (result
        (get_files_by_ids (bytes "d1" ∷ [] ∷ bytes "d1" ∷ []))
        shelves
      ≡ ok rows)
    × ((id : Bytes)
        → is_empty id ≡ false
        → item_by_id id rows ≡ (
            if is_seen id (bytes "d1" ∷ [] ∷ bytes "d1" ∷ [])
            then live_file id shelves.db.files
            else none))
get_files-get_file_example =
    get_files-get_file (bytes "d1" ∷ [] ∷ bytes "d1" ∷ []) shelves (λ n. refl)
      shelves-IsRooted.keyed

abbrev named : Bytes → FileMetadata
named n = record report { name = n }

known_reports :
    all_known
      (hello ∷ [])
      (named (bytes "a") ∷ named (bytes "a") ∷ named (second_name (bytes "a")) ∷ [])
    ≡ true
unfolding all_known has_blob ◌==◌
known_reports = refl

entry_names_example :
    let fs = named (bytes "a") ∷ named (bytes "a") ∷ named (second_name (bytes "a")) ∷ [] in
    let names = map (λ f. f.name) fs in
    (distinct_names [] names ≡ true → names_of (name_entries (hello ∷ []) [] fs) ≡ names)
    × ((n : Bytes)
        → names ≡ n ∷ n ∷ second_name n ∷ []
        → names_of (name_entries (hello ∷ []) [] fs) ≡ n ∷ second_name n ∷ second_name n ∷ [])
entry_names_example =
    entry_names (hello ∷ [])
      (named (bytes "a") ∷ named (bytes "a") ∷ named (second_name (bytes "a")) ∷ []) known_reports

abbrev any_name : Bytes → Bytes → Bool
any_name pattern name = true

list_children_page-index_example :
    let rows = matching any_name [] [] (children_of (bytes "d1") shelves.db.files) in
    (page : List FileMetadata) × (result
        (list_children_page any_name (bytes "d1") [] [] (pos (3 / 2 + 1)) (pos 2) [] [])
        shelves
      ≡ ok (page, length rows))
    × (get_elem? page (3 % 2) ≡ get_elem? (sort_by (page_order [] []) rows) 3)
list_children_page-index_example =
    list_children_page-index any_name (bytes "d1") [] [] [] [] 3 2 shelves (λ n. refl) (omega arith)

office-IsClean : All (λ o. IsClean o.path) office.temp
unfolding resolve fileupload.Storage.Paths.contains_path_traversal
    fileupload.Storage.Paths.normalize fileupload.Storage.Paths.split_path
    fileupload.Storage.Paths.push_byte fileupload.Storage.Paths.has_part
    fileupload.Storage.Paths.clean_parts fileupload.Storage.Paths.join_path ◌==◌
office-IsClean = (refl, (refl, tt))

first_of_chunk : first_part (bytes "s1/0.part") ≡ some (bytes "s1")
unfolding first_part
first_of_chunk = refl

abbrev as_found : List Bytes → List Bytes
as_found ids = ids

-- the upload has run out
abbrev late_office : World
late_office = record office { now = 6000 }

upload_lost : live_session (bytes "s1") late_office.now late_office.redis.sessions ≡ none
unfolding live_session ◌==◌
upload_lost = refl

chunk_there : object_at (bytes "s1/0.part") late_office.temp ≡ some (bytes "abcd")
unfolding object_at ◌==◌
chunk_there = refl

reap_collects_example :
    object_at (bytes "s1/0.part") (after (reap as_found) late_office).temp ≡ none
reap_collects_example =
    reap_collects as_found (bytes "s1") (bytes "s1/0.part") (bytes "abcd") late_office (λ n. refl)
      upload_lost first_of_chunk refl (λ ids seen. seen) office-IsClean chunk_there
