-- ===== src/Upload/Delete/LastReference.antt =====
-- What is left of a content when its last file is deleted.
use fileupload.Upload.Delete.{remove_content, drop_reference, delete_row}
use fileupload.Upload.Delete.Rollback.{delete_file-answered, without_row, without_reference}
use fileupload.Storage.Paths.{resolve}
use fileupload.Meta.Files.{delete_rows}
use fileupload.Meta.Blobs.{count_of, decr_ref, has_blob, blob_by_sha}
use fileupload.Domain.{ContentBlob, ok, FileMetadata}
use fileupload.Store.{acquire_row, acquire_blob, get_blob_by_sha, decr_blob_ref}
use fileupload.Storage.LocalFs.{data_dir, remove_object, delete_object, object_at}
use fileupload.Base.{
  ◌≤◌, is_empty, refl, [], ◌-◌, ◌∷◌, none, some, ◌+◌, List, false, Bytes, ◌≡◌, ℕ, arith,
}
use fileupload.World.{result, after, Object, World}

-- no backend fails
abbrev pub Answers : World → Type 0
Answers w = (n : ℕ) → w.fails n ≡ false

blob_by_sha-decr_ref :
    (sha : Bytes) (bs : List ContentBlob) (b : ContentBlob)
    → blob_by_sha sha bs ≡ some b
    → blob_by_sha sha (decr_ref sha bs) ≡ some (record b { ref_count = b.ref_count - 1 })
unfolding blob_by_sha decr_ref
blob_by_sha-decr_ref sha [] b e = ground arith
blob_by_sha-decr_ref sha (c ∷ bs) b e = ground (arith, blob_by_sha-decr_ref sha bs b)

object_at-remove : (p : Bytes) (os : List Object) → object_at p (remove_object p os) ≡ none
unfolding object_at remove_object
object_at-remove p [] = refl
object_at-remove p (o ∷ os) = ground (arith, object_at-remove p os)

-- The row goes, the count goes down, the object goes.
abbrev pub emptied : FileMetadata → Bytes → World → World
emptied f p w = record w {
  db = record w.db {
    files = delete_rows f.file_id w.db.files;
    blobs = decr_ref f.sha256 w.db.blobs;
  };
  disk = remove_object p w.disk;
  calls = w.calls + 1 + 2 + 1 + 1;
}

decr_blob_ref-answered :
    (sha : Bytes) (b : ContentBlob) (w : World)
    → blob_by_sha sha w.db.blobs ≡ some b
    → Answers w
    → decr_blob_ref sha w ≡ (ok (b.ref_count - 1), without_reference sha w)
unfolding decr_blob_ref has_blob count_of
decr_blob_ref-answered sha b w e h =
    ground (arith, h w.calls, h (w.calls + 1), e, blob_by_sha-decr_ref sha w.db.blobs b e)

pub get_blob-answered :
    (sha : Bytes) (w : World)
    → Answers w
    → get_blob_by_sha sha w ≡ (ok (blob_by_sha sha w.db.blobs), record w { calls = w.calls + 1 })
unfolding get_blob_by_sha
get_blob-answered sha w h = rw (h w.calls)

pub delete_object-answered :
    (path p : Bytes) (w : World)
    → resolve path ≡ ok p
    → Answers w
    → delete_object data_dir path w
      ≡ (ok tt, record w { disk = remove_object p w.disk; calls = w.calls + 1 })
unfolding delete_object
delete_object-answered path p w e h = rw (e, h w.calls)

-- removing the content of a digest without references
remove_last :
    (f : FileMetadata) (b : ContentBlob) (p : Bytes) (w : World)
    → Answers w
    → blob_by_sha f.sha256 w.db.blobs ≡ some b
    → b.ref_count ≤ 1
    → resolve b.storage_path ≡ ok p
    → drop_reference f.sha256 (without_row f.file_id w) ≡ (ok tt, emptied f p w)
unfolding drop_reference remove_content
remove_last f b p w h e last path =
    let w₁ = without_row f.file_id w in
    let w₂ = without_reference f.sha256 w₁ in
    ground (
      arith,
      decr_blob_ref-answered f.sha256 b w₁ e h,
      get_blob-answered f.sha256 w₂ h,
      blob_by_sha-decr_ref f.sha256 w.db.blobs b e,
      delete_object-answered b.storage_path p (record w₂ { calls = w₂.calls + 1 }) path h,
    )

delete_row-last :
    (f : FileMetadata) (b : ContentBlob) (p : Bytes) (w : World)
    → Answers w
    → is_empty f.sha256 ≡ false
    → blob_by_sha f.sha256 w.db.blobs ≡ some b
    → b.ref_count ≤ 1
    → resolve b.storage_path ≡ ok p
    → delete_row f w ≡ (ok tt, emptied f p w)
unfolding delete_row
delete_row-last f b p w h plain e last path =
    ground (
      arith,
      plain,
      delete_file-answered f.file_id w (h w.calls),
      remove_last f b p w h e last path,
    )

-- Once the last file of a content is deleted, with no failure, its object is gone and the row of its
-- digest is still there, with no reference: the digest is still found, and a new upload of the same
-- content is told to use the path of the object that is gone, not the copy that it wrote.
pub last_reference_found :
    (f : FileMetadata) (b c : ContentBlob) (p : Bytes) (w : World)
    → Answers w
    → is_empty f.sha256 ≡ false
    → blob_by_sha f.sha256 w.db.blobs ≡ some b
    → b.ref_count ≤ 1
    → resolve b.storage_path ≡ ok p
    → c.sha256 ≡ f.sha256
    → let w' = after (delete_row f) w in
      (object_at p w'.disk ≡ none)
      × (result (get_blob_by_sha f.sha256) w' ≡ ok (some (record b { ref_count = 0 })))
      × (result (acquire_blob c) w' ≡ ok (b.storage_path, false))
unfolding acquire_blob acquire_row
last_reference_found f b c p w h plain e last path same = ground (
  arith,
  delete_row-last f b p w h plain e last path,
  object_at-remove p w.disk,
  get_blob-answered f.sha256 (emptied f p w) h,
  blob_by_sha-decr_ref f.sha256 w.db.blobs b e,
  same,
  h (emptied f p w).calls,
)
