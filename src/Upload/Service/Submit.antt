-- ===== src/Upload/Service/Submit.antt =====
-- SubmitDir and BatchTag leave the reference counts alone.
use fileupload.Upload.Trash.{is_seen}
use fileupload.Storage.Paths.{slash}
use fileupload.Upload.Names.{is_safe_relative_path, base_name}
use fileupload.Upload.Service.Tables.{set_rows-Counted}
use fileupload.Meta.Blobs.{count_of-set_storage_path, set_storage_path}
use fileupload.Store.Integrity.{put_file-IsCounted_plain, IsCounted}
use fileupload.Store.Counted.{
  get_file-Counted, delete_object-Counted, write-Counted, get_blob_by_sha-Counted,
  open_object-Counted, new_id-Counted, Counted,
}
use fileupload.World.Keeps.{
  Keeps-ignore, Keeps-if, Keeps-require, Keeps-attempt, Keeps-gets, Keeps-pure, keeps_rules,
  Keeps-bind, Keeps,
}
use fileupload.Meta.Files.{set_parent_path}
use fileupload.World.{pure, ignore, attempt, TagRow, Db}
use fileupload.Store.Tags.{drop_tags, add_tags, set_file_tags}
use fileupload.Store.{get_file, put_file, reparent_file, update_blob_storage}
use fileupload.Upload.Submit.{
  root_row, dir_of, dir_name, validate_dir_manifest, place_entries, make_dirs, check_entries,
  place_blob, moved, submit_dir, dir_row, make_tree, place_found, place_content, move_object,
  check_entry_file,
}
use fileupload.Batch.{found_in, batch_tag}
use fileupload.Base.{
  ◌&&◌, [], if◌then◌else◌, is_empty, not, ◌==◌, refl, ◌∷◌, arith, Option, ℕ, List, Bytes, none,
  some,
}
use fileupload.Domain.{
  invalid_argument, ContentBlob, FileMetadata, DirManifest, DirEntry, Result, ok, err,
}

with_tags : (d : Db) (ts : List TagRow) → IsCounted d → IsCounted (record d { tags = ts })
with_tags d ts h = record { keyed = h.keyed; covered = h.covered }

set_file_tags-Counted : (id : Bytes) (ts : List Bytes) → Keeps Counted (set_file_tags id ts)
unfolding set_file_tags
set_file_tags-Counted id ts = record {
  from = λ w h. ground (arith, with_tags w.db (add_tags id ts (drop_tags id w.db.tags)) h, h);
}

pub batch_tag-Counted : (ids ts : List Bytes) (ns : Bytes) → Keeps Counted (batch_tag ids ts ns)
unfolding batch_tag
batch_tag-Counted [] ts ns = Keeps-pure tt
batch_tag-Counted (id ∷ ids) ts ns =
    Keeps-bind (attempt (get_file id)) _ (Keeps-attempt _ (get_file-Counted id)) (λ found.
      Keeps-bind (if found_in ns found then ignore (set_file_tags id ts) else pure tt) _
        (Keeps-if (found_in ns found) _ _ (Keeps-ignore _ (set_file_tags-Counted id ts))
          (Keeps-pure tt))
        (λ _. batch_tag-Counted ids ts ns))

reparent-Counted : (id parent path : Bytes) → Keeps Counted (reparent_file id parent path)
unfolding reparent_file set_parent_path
reparent-Counted id parent path = record {
  from = λ w h. ground (
    arith,
    set_rows-Counted (λ f. f.file_id == id) (λ f. record f { parent_id = parent; path = path }) w
        (λ f. refl) (λ f. refl) h,
  );
}

update_path-Counted : (sha path : Bytes) → Keeps Counted (update_blob_storage sha path)
unfolding update_blob_storage
update_path-Counted sha path = record {
  from = λ w h.
      let moved_path : IsCounted (record w.db { blobs = set_storage_path sha path w.db.blobs }) =
        record {
          keyed = h.keyed;
          covered = λ k hk.
              ground (arith, h.covered k hk, count_of-set_storage_path sha path k w.db.blobs);
        } in
      ground (arith, moved_path, h);
}

dir_row-Counted :
    (id name path ns parent : Bytes) (now : ℕ)
    → Keeps Counted (put_file (dir_row id name path ns parent now))
unfolding dir_row
dir_row-Counted id name path ns parent now = record {
  from = λ w h. put_file-IsCounted_plain (dir_row id name path ns parent now) w refl h;
}

check_found-Counted :
    (ns : Bytes) (found : Option FileMetadata) → Keeps Counted (check_entry_file ns found)
unfolding check_entry_file
check_found-Counted ns none = search keeps_rules
check_found-Counted ns (some g) = search keeps_rules

check_entries-Counted :
    (ns : Bytes) (paths files : List Bytes) (es : List DirEntry)
    → Keeps Counted (check_entries ns paths files es)
unfolding check_entries
check_entries-Counted ns paths files [] = Keeps-pure tt
check_entries-Counted ns paths files (e ∷ es) =
    Keeps-bind _ _
      (Keeps-require (not (is_empty e.file_id) && is_safe_relative_path e.path) invalid_argument)
      (λ _. Keeps-bind _ _ (Keeps-require (not (is_seen e.path paths)) invalid_argument) (λ _.
        Keeps-bind _ _ (Keeps-require (not (is_seen e.file_id files)) invalid_argument) (λ _.
          Keeps-bind _ _ (get_file-Counted e.file_id) (λ found.
            Keeps-bind _ _ (check_found-Counted ns found)
              (λ _. check_entries-Counted ns (e.path ∷ paths) (e.file_id ∷ files) es)))))

make_dirs-Counted :
    (ns root : Bytes) (now : ℕ) (ps : List Bytes) (m : List (Bytes × Bytes))
    → Keeps Counted (make_dirs ns root now ps m)
unfolding make_dirs
make_dirs-Counted ns root now [] m = Keeps-pure m
make_dirs-Counted ns root now (p ∷ ps) m = Keeps-bind _ _ new_id-Counted (λ k.
    Keeps-bind _ _ (dir_row-Counted k (base_name p) p ns (dir_of root m p) now)
      (λ _. make_dirs-Counted ns root now ps ((p, k) ∷ m)))

move_object-Counted : (src dest : Bytes) → Keeps Counted (move_object src dest)
unfolding move_object
move_object-Counted src dest =
    search (keeps_rules, open_object-Counted, write-Counted, delete_object-Counted)

moved-Counted : (sha dest : Bytes) (r : Result (Unit {0})) → Keeps Counted (moved sha dest r)
unfolding moved
moved-Counted sha dest (err e) = Keeps-pure tt
moved-Counted sha dest (ok u) = search (keeps_rules, update_path-Counted)

place_blob-Counted :
    (sha dest : Bytes) (r : Result (Option ContentBlob)) → Keeps Counted (place_blob sha dest r)
unfolding place_blob
place_blob-Counted sha dest (err e) = Keeps-pure tt
place_blob-Counted sha dest (ok none) = Keeps-pure tt
place_blob-Counted sha dest (ok (some b)) = search (keeps_rules, move_object-Counted, moved-Counted)

place_content-Counted : (sha dest : Bytes) → Keeps Counted (place_content sha dest)
unfolding place_content
place_content-Counted sha dest = search (keeps_rules, get_blob_by_sha-Counted, place_blob-Counted)

place_found-Counted :
    (ns name : Bytes) (e : DirEntry) (parent : Bytes) (r : Result (Option FileMetadata))
    → Keeps Counted (place_found ns name e parent r)
unfolding place_found
place_found-Counted ns name e parent (err x) = Keeps-pure tt
place_found-Counted ns name e parent (ok none) = Keeps-pure tt
place_found-Counted ns name e parent (ok (some g)) =
    search (keeps_rules, reparent-Counted, place_content-Counted)

place_entries-Counted :
    (ns name root : Bytes) (m : List (Bytes × Bytes)) (es : List DirEntry)
    → Keeps Counted (place_entries ns name root m es)
unfolding place_entries
place_entries-Counted ns name root m [] = Keeps-pure tt
place_entries-Counted ns name root m (e ∷ es) =
    Keeps-bind _ _ (Keeps-attempt _ (get_file-Counted e.file_id)) (λ found.
      Keeps-bind _ _ (place_found-Counted ns name e (dir_of root m e.path) found)
        (λ _. place_entries-Counted ns name root m es))

make_tree-Counted : (ns : Bytes) (m : DirManifest) → Keeps Counted (make_tree ns m)
unfolding make_tree
make_tree-Counted ns m = Keeps-bind _ _ new_id-Counted (λ k.
    Keeps-bind _ _ (Keeps-gets (λ w. w.now)) (λ now.
      Keeps-bind _ _ (dir_row-Counted k (dir_name m k) (slash ∷ []) ns [] now) (λ _.
        Keeps-bind _ _ (make_dirs-Counted ns k now _ _) (λ dirs.
          Keeps-bind _ _ (place_entries-Counted ns (dir_name m k) k dirs m.entries)
            (λ _. Keeps-pure (root_row ns m k now))))))

pub submit_dir-Counted : (ns : Bytes) (m : DirManifest) → Keeps Counted (submit_dir ns m)
unfolding submit_dir validate_dir_manifest
submit_dir-Counted ns m = search (keeps_rules, check_entries-Counted, make_tree-Counted)
