-- ===== src/Upload/Submit/Content.antt =====
-- Where the contents stand after SubmitDir has moved one.
use fileupload.Storage.Objects.{object_at-put_object, object_at-remove_object}
use fileupload.Domain.{Result, ok, ContentBlob}
use fileupload.Upload.Delete.LastReference.{get_blob-answered, delete_object-answered, Answers}
use fileupload.World.{Db, after, World}
use fileupload.Storage.Paths.{resolve}
use fileupload.Base.{
  Option, ◌∙◌, ap, is_empty, refl, [], eq_iff, ◌∷◌, false, arith, none, ◌+◌, length, ◌==◌, some,
  if◌then◌else◌, ◌≡◌, List, Bytes,
}
use fileupload.Meta.Blobs.{set_storage_path, blob_by_sha}
use fileupload.Upload.Submit.{moved, place_blob, place_content, is_same_object, move_object}
use fileupload.Store.{update_blob_storage}
use fileupload.Storage.LocalFs.{
  copy_into, remove_object, slice, put_object, object_at, write, open_object, data_dir,
}

blob_by_sha-set_path :
    (sha path k : Bytes) (bs : List ContentBlob)
    → blob_by_sha k (set_storage_path sha path bs) ≡ (
        if sha == k
        then elim (blob_by_sha k bs) [
          | none ↦ none
          | some b ↦ some (record b { storage_path = path })
        ]
        else blob_by_sha k bs)
unfolding blob_by_sha set_storage_path
blob_by_sha-set_path sha path k [] = ground arith
blob_by_sha-set_path sha path k (c ∷ bs) = ground (
  arith,
  eq_iff c.sha256 sha,
  eq_iff c.sha256 k,
  eq_iff sha k,
  blob_by_sha-set_path sha path k bs,
)

open_object-answered :
    (path p c : Bytes) (w : World)
    → resolve path ≡ ok p
    → object_at p w.disk ≡ some c
    → Answers w
    → open_object data_dir path 0 0 w ≡ (ok c, record w { calls = w.calls + 1 })
unfolding open_object slice
open_object-answered path p c w e there h = rw (e, h w.calls, there)

write-answered :
    (path p c : Bytes) (w : World)
    → resolve path ≡ ok p
    → Answers w
    → write data_dir path (some c) w
      ≡ (ok (length c), record w { disk = put_object p c w.disk; calls = w.calls + 1 + 1 })
unfolding write copy_into
write-answered path p c w e h = rw (e, h w.calls, h (w.calls + 1))

update_blob-answered :
    (sha path : Bytes) (w : World)
    → Answers w
    → update_blob_storage sha path w ≡ (
      ok tt,
      record w {
        db = record w.db { blobs = set_storage_path sha path w.db.blobs };
        calls = w.calls + 1;
      },
    )
unfolding update_blob_storage
update_blob-answered sha path w h = rw (h w.calls)

is_same_object-resolved :
    (src dest p q : Bytes)
    → resolve src ≡ ok p
    → resolve dest ≡ ok q
    → is_same_object src dest ≡ (p == q)
unfolding is_same_object
is_same_object-resolved src dest p q e f = rw (is_same_object, e, f) refl

move_object-answered :
    (src dest p q c : Bytes) (w : World)
    → Answers w
    → resolve src ≡ ok p
    → resolve dest ≡ ok q
    → p == q ≡ false
    → object_at p w.disk ≡ some c
    → move_object src dest w ≡ (
      ok tt,
      record w { disk = remove_object p (put_object q c w.disk); calls = w.calls + 1 + 1 + 1 + 1 },
    )
unfolding move_object
move_object-answered src dest p q c w h from to apart there = rw (
  open_object-answered src p c w from there h,
  is_same_object-resolved src dest p q from to,
  apart,
  write-answered dest q c (record w { calls = w.calls + 1 }) to h,
  delete_object-answered src p
      (record w { disk = put_object q c w.disk; calls = w.calls + 1 + 1 + 1 }) from h,
)

-- what SubmitDir leaves of the tables and the store, when it has moved the content of a digest
record Moved (sha dest p q c : Bytes) (w : World) (o : Result (Unit {0}) × World) : Type 0 where
  returns : o.0 ≡ ok tt
  store : o.1.disk ≡ remove_object p (put_object q c w.disk)
  rows : o.1.db ≡ record w.db { blobs = set_storage_path sha dest w.db.blobs }

place_content-Moved :
    (sha dest : Bytes) (b : ContentBlob) (p q c : Bytes) (w : World)
    → Answers w
    → is_empty sha ≡ false
    → blob_by_sha sha w.db.blobs ≡ some b
    → b.storage_path == dest ≡ false
    → resolve b.storage_path ≡ ok p
    → resolve dest ≡ ok q
    → p == q ≡ false
    → object_at p w.disk ≡ some c
    → Moved sha dest p q c w (place_content sha dest w)
unfolding place_content place_blob moved
place_content-Moved sha dest b p q c w h named found differ from to apart there =
    let w₁ = record w { calls = w.calls + 1 } in
    let w₂ = record w₁ {
      disk = remove_object p (put_object q c w.disk);
      calls = w₁.calls + 1 + 1 + 1 + 1;
    } in
    rw
      (
        named,
        get_blob-answered sha w h,
        found,
        differ,
        move_object-answered b.storage_path dest p q c w₁ h from to apart there,
        update_blob-answered sha dest w₂ h,
      )
      (record { returns = refl; store = refl; rows = refl })

-- With no failure, SubmitDir moves the content of a digest that has a row from where it stands to the path
-- in the directory, if these are two objects: the content then stands there, nothing stands where it
-- stood, no other object changes, and the row of the digest names the new path. The rows of all other
-- digests stay: one that named the new path before now names an object with this content.
pub place_content_moves :
    (sha dest : Bytes) (b : ContentBlob) (p q c : Bytes) (w : World)
    → Answers w
    → is_empty sha ≡ false
    → blob_by_sha sha w.db.blobs ≡ some b
    → b.storage_path == dest ≡ false
    → resolve b.storage_path ≡ ok p
    → resolve dest ≡ ok q
    → p == q ≡ false
    → object_at p w.disk ≡ some c
    → let w' = after (place_content sha dest) w in
      ((r : Bytes)
        → object_at r w'.disk
          ≡ (if p == r then none else if q == r then some c else object_at r w.disk))
      × ((k : Bytes)
          → blob_by_sha k w'.db.blobs ≡ (
              if sha == k
              then some (record b { storage_path = dest })
              else blob_by_sha k w.db.blobs))
      × (w'.db.files ≡ w.db.files)
place_content_moves sha dest b p q c w h named found differ from to apart there =
    let m = place_content-Moved sha dest b p q c w h named found differ from to apart there in
    (
      (λ r.
          ap (object_at r) m.store
          ∙ object_at-remove_object p r (put_object q c w.disk)
          ∙ ap (λ (o : Option Bytes). if p == r then none else o)
              (object_at-put_object q c r w.disk)),
      (λ k.
          ap (λ (d : Db). blob_by_sha k d.blobs) m.rows
          ∙ blob_by_sha-set_path sha dest k w.db.blobs
          ∙ ground (arith, found, eq_iff sha k)),
      ap (λ (d : Db). d.files) m.rows,
    )
