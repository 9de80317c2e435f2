-- ===== src/Upload/Submit/Rows.antt =====
-- The rows that SubmitDir leaves alone: it moves only the files that its manifest names.

use fileupload.Upload.Names.{base_name}
use fileupload.Upload.Submit.{
  dir_of, dir_row, moved, place_found, place_content, place_blob, move_object, place_entries,
  make_dirs,
}
use fileupload.Storage.LocalFs.{
  delete_object, open_object, write, copy_into, data_dir, set_objects, Root,
}
use fileupload.World.{attempt, Object, count_call, backend_call, World}
use fileupload.Ids.{new_id}
use fileupload.World.Keeps.{
  Keeps-pure, Keeps-gets, Keeps-require, Keeps-attempt, Keeps-bind, Keeps, keeps_rules,
}
use fileupload.Store.{
  set_files, reparent_file, get_blob_by_sha, update_blob_storage, put_file, get_file,
}
use fileupload.Domain.{ok, ContentBlob, err, Result, DirEntry, FileMetadata}
use fileupload.Meta.Files.{insert_file, set_parent_path, live_file}
use fileupload.Storage.LocalFs.{data_dir, temp_dir}
use fileupload.Base.{
  All, ℕ, Option, refl, eq_iff, [], ◌∷◌, ◌++◌, false, arith, ◌==◌, ◌≡◌, List, Bytes, none, some,
}

-- the live file of the identifier
pub record Row (id : Bytes) (f : FileMetadata) (w : World) : Type 0 where
  pub row : live_file id w.db.files ≡ some f

live_file-append :
    (id : Bytes) (fs : List FileMetadata) (f g : FileMetadata)
    → live_file id fs ≡ some f
    → live_file id (fs ++ g ∷ []) ≡ some f
unfolding live_file
live_file-append id [] f g e = ground arith
live_file-append id (h ∷ fs) f g e = ground (arith, live_file-append id fs f g)

live_file-set_parent_path :
    (id other parent path : Bytes) (fs : List FileMetadata)
    → other == id ≡ false
    → live_file id (set_parent_path other parent path fs) ≡ live_file id fs
unfolding live_file set_parent_path
live_file-set_parent_path id other parent path [] e = refl
live_file-set_parent_path id other parent path (g ∷ fs) e = ground (
  arith,
  eq_iff g.file_id id,
  eq_iff g.file_id other,
  eq_iff other id,
  live_file-set_parent_path id other parent path fs e,
)

module _ {id : Bytes} {f : FileMetadata} where
  pub call-Row : Keeps (Row id f) backend_call
  call-Row = record { from = λ w h. record { row = ground (arith, h.row) } }

  pub count-Row : Keeps (Row id f) count_call
  count-Row = record { from = λ w h. record { row = h.row } }

  pub new_id-Row : Keeps (Row id f) new_id
  unfolding new_id
  new_id-Row = record { from = λ w h. record { row = h.row } }

  pub get_file-Row : (k : Bytes) → Keeps (Row id f) (get_file k)
  unfolding get_file
  get_file-Row k = record { from = λ w h. record { row = ground (arith, h.row) } }

  pub get_blob-Row : (sha : Bytes) → Keeps (Row id f) (get_blob_by_sha sha)
  unfolding get_blob_by_sha
  get_blob-Row sha = record { from = λ w h. record { row = ground (arith, h.row) } }

  pub update_blob-Row : (sha path : Bytes) → Keeps (Row id f) (update_blob_storage sha path)
  unfolding update_blob_storage
  update_blob-Row sha path = record { from = λ w h. record { row = ground (arith, h.row) } }

  pub put_file-Row : (g : FileMetadata) → Keeps (Row id f) (put_file g)
  unfolding put_file set_files insert_file
  put_file-Row g = record {
    from = λ w h. record {
      row = ground (
        arith,
        h.row,
        live_file-append id w.db.files f (record g { tags = []; deleted_at = none }) h.row,
      );
    };
  }

  reparent-Row :
      (k parent path : Bytes) → k == id ≡ false → Keeps (Row id f) (reparent_file k parent path)
  unfolding reparent_file
  reparent-Row k parent path other = record {
    from = λ w h. record {
      row = ground (arith, h.row, live_file-set_parent_path id k parent path w.db.files other);
    };
  }

  pub set_objects-Row : (root : Root) (os : List Object) → Keeps (Row id f) (set_objects root os)
  set_objects-Row data_dir os = record { from = λ w h. record { row = h.row } }
  set_objects-Row temp_dir os = record { from = λ w h. record { row = h.row } }

  pub ruleset row_rules = (
    keeps_rules, call-Row, count-Row, new_id-Row, get_file-Row, get_blob-Row, update_blob-Row,
    put_file-Row, set_objects-Row,
  )

  open_object-Row :
      (root : Root) (path : Bytes) (offset len : ℕ)
      → Keeps (Row id f) (open_object root path offset len)
  unfolding open_object
  open_object-Row root path offset len = record {
    from = λ w h. record { row = ground (arith, h.row) };
  }

  delete_object-Row : (root : Root) (path : Bytes) → Keeps (Row id f) (delete_object root path)
  unfolding delete_object
  delete_object-Row root path = search row_rules

  copy_into-Row :
      (root : Root) (p : Bytes) (stream : Option Bytes) → Keeps (Row id f) (copy_into root p stream)
  unfolding copy_into
  copy_into-Row root p none = search row_rules
  copy_into-Row root p (some c) = search row_rules

  write-Row :
      (root : Root) (path : Bytes) (stream : Option Bytes)
      → Keeps (Row id f) (write root path stream)
  unfolding write
  write-Row root path stream = search (row_rules, copy_into-Row)

  move_object-Row : (src dest : Bytes) → Keeps (Row id f) (move_object src dest)
  unfolding move_object
  move_object-Row src dest = search (row_rules, open_object-Row, write-Row, delete_object-Row)

  moved-Row : (sha dest : Bytes) (r : Result (Unit {0})) → Keeps (Row id f) (moved sha dest r)
  unfolding moved
  moved-Row sha dest (err e) = search row_rules
  moved-Row sha dest (ok u) = search row_rules

  place_blob-Row :
      (sha dest : Bytes) (r : Result (Option ContentBlob))
      → Keeps (Row id f) (place_blob sha dest r)
  unfolding place_blob
  place_blob-Row sha dest (err e) = search row_rules
  place_blob-Row sha dest (ok none) = search row_rules
  place_blob-Row sha dest (ok (some b)) = search (row_rules, move_object-Row, moved-Row)

  place_content-Row : (sha dest : Bytes) → Keeps (Row id f) (place_content sha dest)
  unfolding place_content
  place_content-Row sha dest = search (row_rules, place_blob-Row)

  place_found-Row :
      (ns name : Bytes) (e : DirEntry) (parent : Bytes) (r : Result (Option FileMetadata))
      → e.file_id == id ≡ false
      → Keeps (Row id f) (place_found ns name e parent r)
  unfolding place_found
  place_found-Row ns name e parent (err x) other = search row_rules
  place_found-Row ns name e parent (ok none) other = search row_rules
  place_found-Row ns name e parent (ok (some g)) other =
      search (row_rules, reparent-Row, place_content-Row)

  pub place_entries-Row :
      (ns name root : Bytes) (m : List (Bytes × Bytes)) (es : List DirEntry)
      → All (λ e. e.file_id == id ≡ false) es
      → Keeps (Row id f) (place_entries ns name root m es)
  unfolding place_entries
  place_entries-Row ns name root m [] others = search row_rules
  place_entries-Row ns name root m (e ∷ es) (other, others) =
      Keeps-bind (attempt (get_file e.file_id)) _ (Keeps-attempt _ (get_file-Row e.file_id))
        (λ found.
          Keeps-bind (place_found ns name e (dir_of root m e.path) found) _
            (place_found-Row ns name e (dir_of root m e.path) found other)
            (λ _. place_entries-Row ns name root m es others))

  pub make_dirs-Row :
      (ns root : Bytes) (now : ℕ) (ps : List Bytes) (m : List (Bytes × Bytes))
      → Keeps (Row id f) (make_dirs ns root now ps m)
  unfolding make_dirs
  make_dirs-Row ns root now [] m = search row_rules
  make_dirs-Row ns root now (p ∷ ps) m = Keeps-bind new_id _ new_id-Row (λ k.
      Keeps-bind (put_file (dir_row k (base_name p) p ns (dir_of root m p) now)) _
        (put_file-Row (dir_row k (base_name p) p ns (dir_of root m p) now))
        (λ _. make_dirs-Row ns root now ps ((p, k) ∷ m)))
