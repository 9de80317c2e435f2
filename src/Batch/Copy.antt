-- ===== src/Batch/Copy.antt =====
-- The reference of a copy.
use fileupload.World.Inversion.{bind_after_ok}
use fileupload.Meta.Files.Laws.{refs-append}
use fileupload.Meta.Blobs.{count_of-incr_ref, count_of, count_of_absent, has_blob}
use fileupload.Store.Integrity.{IsCounted}
use fileupload.Ids.{new_id_world, new_id}
use fileupload.World.{◌>>=◌, attempt, after, result, World, Db}
use fileupload.Store.{incr_blob_ref, set_files, put_file}
use fileupload.Domain.{Result, ok, FileMetadata}
use fileupload.Batch.{count_copy, copy_of, copy_file}
use fileupload.Meta.Files.{has_id, insert_file, refs, live_file}
use std.Path.{subst}
use fileupload.Base.{
  Bool, sym, refl, eq_iff, none, not, ◌&&◌, ◌==◌, if◌then◌else◌, inr, ◌+◌, inl, [], eq_refl,
  Bool-cases, ◌∷◌, true, arith, false, ◌≤◌, is_empty, some, ◌≡◌, ℕ, List, Bytes,
}

refs-live :
    (id : Bytes) (fs : List FileMetadata) (f : FileMetadata)
    → live_file id fs ≡ some f
    → 1 ≤ refs f.sha256 fs
unfolding live_file refs
refs-live id [] f e = ground arith
refs-live id (g ∷ fs) f e = ground (arith, refs-live id fs f, eq_refl g.sha256)

-- a file's content has a row
content_known :
    (id : Bytes) (f : FileMetadata) (d : Db)
    → IsCounted d
    → live_file id d.files ≡ some f
    → is_empty f.sha256 ≡ false
    → has_blob f.sha256 d.blobs ≡ true
content_known id f d h e named = elim (Bool-cases (has_blob f.sha256 d.blobs)) [
  | inl known ↦ known
  | inr absent ↦ absurd (
      omega (
        arith,
        count_of_absent f.sha256 d.blobs absent,
        h.covered f.sha256 named,
        refs-live id d.files f e,
      ))
]

-- the row is written, then the reference is counted, unless that call fails
put_counted :
    (k : Bytes) (g : FileMetadata) (w : World)
    → has_id g.file_id w.db.files ≡ false
    → has_blob g.sha256 w.db.blobs ≡ true
    → is_empty g.sha256 ≡ false
    → w.fails w.calls ≡ false
    → let w' = after (attempt (put_file g) >>= count_copy g.sha256) w in
      (refs k w'.db.files ≡ refs k w.db.files + (if g.sha256 == k then 1 else 0))
      × (count_of k w'.db.blobs
          ≡ count_of k w.db.blobs + (if g.sha256 == k && not (w.fails (w.calls + 1)) then 1 else 0))
unfolding put_file set_files insert_file count_copy incr_blob_ref
put_counted k g w fresh known named up = elim (Bool-cases (w.fails (w.calls + 1))) [
  | inl down ↦
      rw (up, fresh, named, down, after)
        (refs-append k w.db.files (record g { tags = []; deleted_at = none }), ground arith)
  | inr on ↦
      rw (up, fresh, named, on, known, after)
        (
          refs-append k w.db.files (record g { tags = []; deleted_at = none }),
          ground (arith, count_of-incr_ref g.sha256 k w.db.blobs, eq_iff g.sha256 k, known),
        )
]

copy-sha256 :
    (fresh target ns : Bytes) (now : ℕ) (f : FileMetadata)
    → f.is_dir ≡ false
    → (copy_of fresh target ns now f).sha256 ≡ f.sha256
unfolding copy_of
copy-sha256 fresh target ns now f file = rw file refl

-- what a copy makes of the files that name a digest, and of its count
abbrev Changes : Bytes → Bytes → World → World → Type 0
Changes k sha w w' =
    (refs k w'.db.files ≡ refs k w.db.files + (if sha == k then 1 else 0))
    × (count_of k w'.db.blobs
        ≡ count_of k w.db.blobs + (if sha == k && not (w.fails (w.calls + 1)) then 1 else 0))

-- When BatchCopy copies a file whose content is counted, and its new row is written, one file more names
-- the content, and the count of the blob goes up by one just if the call that counts it does not fail. Where
-- that call fails, the new file stays and the count of its content is as it was.
pub copy_file_counts :
    (id target ns k fresh : Bytes) (now : ℕ) (f : FileMetadata) (w : World)
    → IsCounted w.db
    → live_file id w.db.files ≡ some f
    → f.is_dir ≡ false
    → is_empty f.sha256 ≡ false
    → result new_id w ≡ ok fresh
    → has_id fresh w.db.files ≡ false
    → w.fails w.calls ≡ false
    → let w' = after (copy_file target ns now f) w in
      (refs k w'.db.files ≡ refs k w.db.files + (if f.sha256 == k then 1 else 0))
      × (count_of k w'.db.blobs
          ≡ count_of k w.db.blobs + (if f.sha256 == k && not (w.fails (w.calls + 1)) then 1 else 0))
unfolding copy_file
copy_file_counts id target ns k fresh now f w counted there file named drawn free up =
    let (n, moved) = new_id_world w in
    let g = copy_of fresh target ns now f in
    let same = copy-sha256 fresh target ns now f file in
    let v = record w { id_counter = n } in
    let step =
      put_counted k g v (unfold copy_of in free)
        (subst (λ s. has_blob s w.db.blobs ≡ true) (sym same)
          (content_known id f w.db counted there named))
        (subst (λ s. is_empty s ≡ false) (sym same) named) up in
    let placed =
      subst (λ s. Changes k s w (after (attempt (put_file g) >>= count_copy s) v)) same step in
    subst (λ (o : Result Bool × World). Changes k f.sha256 w o.1)
      (sym (
        bind_after_ok new_id
          (λ i. attempt (put_file (copy_of i target ns now f)) >>= count_copy f.sha256) w fresh
          drawn))
      (subst (λ u. Changes k f.sha256 w (after (attempt (put_file g) >>= count_copy f.sha256) u))
        (sym moved) placed)
