-- ===== src/Upload/Delete/Rollback.antt =====
-- What PurgeFromTrash rolls back when the count of a digest cannot be read.
use fileupload.Meta.Files.Laws.{refs-delete_rows, refs-append, IsKeyed}
use fileupload.Upload.Delete.{
  roll_back_one, roll_back, finish_purge, after_decr, after_delete, delete_file_deferred, purge_row,
}
use fileupload.Meta.Blobs.{count_of-decr_ref, count_of, decr_ref, has_blob}
use fileupload.Store.{set_files, decr_blob_ref, put_file, delete_file}
use fileupload.Meta.Files.{refs, live_file, delete_rows, insert_file, has_id}
use fileupload.Domain.{backend, ok, err, FileMetadata}
use fileupload.Base.{
  ◌<◌, eq_refl, some, is_empty, refl, none, ◌∷◌, [], true, false, ◌+◌, List, ◌≡◌, ◌++◌, Bytes,
  arith,
}
use fileupload.World.{after, result, World}

has_id-deleted : (id : Bytes) (fs : List FileMetadata) → has_id id (delete_rows id fs) ≡ false
unfolding has_id delete_rows
has_id-deleted id [] = refl
has_id-deleted id (f ∷ fs) = ground (arith, has_id-deleted id fs)

abbrev pub without_row : Bytes → World → World
without_row id w = record w {
  db = record w.db { files = delete_rows id w.db.files };
  calls = w.calls + 1;
}

pub delete_file-answered :
    (id : Bytes) (w : World)
    → w.fails w.calls ≡ false
    → delete_file id w ≡ (ok tt, without_row id w)
unfolding delete_file
delete_file-answered id w h = rw h

abbrev pub without_reference : Bytes → World → World
without_reference sha w = record w {
  db = record w.db { blobs = decr_ref sha w.db.blobs };
  calls = w.calls + 2;
}

-- the UPDATE takes effect, and the SELECT fails
decr_blob_ref-unread :
    (sha : Bytes) (w : World)
    → has_blob sha w.db.blobs ≡ true
    → w.fails w.calls ≡ false
    → w.fails (w.calls + 1) ≡ true
    → decr_blob_ref sha w ≡ (err backend, without_reference sha w)
unfolding decr_blob_ref
decr_blob_ref-unread sha w known up down = ground (arith, known, up, down)

abbrev with_row : FileMetadata → World → World
with_row f w = record w {
  db = record w.db { files = w.db.files ++ record f { tags = []; deleted_at = none } ∷ [] };
  calls = w.calls + 1;
}

put_file-answered :
    (f : FileMetadata) (w : World)
    → has_id f.file_id w.db.files ≡ false
    → w.fails w.calls ≡ false
    → put_file f w ≡ (ok tt, with_row f w)
unfolding put_file insert_file set_files
put_file-answered f w new up = rw (up, new)

-- The backend calls from the deletion of the row on: the third, which reads the count, fails.
pub record LosesCount (w : World) : Type 0 where
  pub deletes : w.fails w.calls ≡ false
  pub updates : w.fails (w.calls + 1) ≡ false
  pub reads : w.fails (w.calls + 1 + 1) ≡ true
  pub restores : w.fails (w.calls + 1 + 2) ≡ false

-- the row is back, the reference is not
abbrev pub half_restored : FileMetadata → World → World
half_restored f w = record w {
  db = record w.db {
    files = delete_rows f.file_id w.db.files ++ record f { tags = []; deleted_at = none } ∷ [];
    blobs = decr_ref f.sha256 w.db.blobs;
  };
  calls = w.calls + 1 + 2 + 1;
}

purge_row-half :
    (f : FileMetadata) (w : World)
    → is_empty f.sha256 ≡ false
    → has_blob f.sha256 w.db.blobs ≡ true
    → LosesCount w
    → purge_row f w ≡ (err backend, half_restored f w)
unfolding purge_row delete_file_deferred after_delete after_decr finish_purge roll_back
    roll_back_one
purge_row-half f w plain known h = ground (
  arith,
  h.deletes,
  h.updates,
  h.reads,
  h.restores,
  delete_file-answered f.file_id w h.deletes,
  decr_blob_ref-unread f.sha256 (without_row f.file_id w) known h.updates h.reads,
  put_file-answered f (without_reference f.sha256 (without_row f.file_id w))
      (has_id-deleted f.file_id w.db.files) h.restores,
)

-- If the count of a digest cannot be read back after it has been lowered, and no other call fails, the
-- rollback of PurgeFromTrash puts the file's row back and leaves the count lowered: the digest has as many
-- files as before, and one reference less. The file, which is passed as the recycle bin listed it, has a
-- row of its digest that has been restored, identifiers are unique, and the digest has a blob whose count
-- is not 0.
pub purge_loses_reference :
    (f g : FileMetadata) (w : World)
    → is_empty f.sha256 ≡ false
    → has_blob f.sha256 w.db.blobs ≡ true
    → 0 < count_of f.sha256 w.db.blobs
    → live_file f.file_id w.db.files ≡ some g
    → g.sha256 ≡ f.sha256
    → IsKeyed w.db.files
    → LosesCount w
    → (result (purge_row f) w ≡ err backend)
      × (refs f.sha256 (after (purge_row f) w).db.files ≡ refs f.sha256 w.db.files)
      × (count_of f.sha256 (after (purge_row f) w).db.blobs + 1 ≡ count_of f.sha256 w.db.blobs)
purge_loses_reference f g w plain known counted live same keyed h = ground (
  arith,
  purge_row-half f w plain known h,
  refs-append f.sha256 (delete_rows f.file_id w.db.files)
      (record f { tags = []; deleted_at = none }),
  refs-delete_rows f.sha256 f.file_id w.db.files g keyed live,
  same,
  count_of-decr_ref f.sha256 f.sha256 w.db.blobs,
  eq_refl f.sha256,
)
