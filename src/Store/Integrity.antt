-- ===== src/Store/Integrity.antt =====
-- The reference counts of the table content_blobs against the rows of the table files, across each
-- statement and each failure.
use fileupload.Base.{
  refl, some, none, Option, List, ℕ, ◌+◌, ◌≤◌, ◌≡◌, true, false, Bytes, ◌==◌, eq_iff, is_empty,
  if◌then◌else◌, arith,
}
use fileupload.Domain.{FileMetadata, ContentBlob, Result, ok, err}
use fileupload.World.{World, Db, result, after}
use fileupload.Meta.Blobs.{
  blob_by_sha, insert_or_ignore, count_of-insert_or_ignore, count_of, has_blob, count_of-incr_ref,
  count_of-decr_ref, count_of_absent, incr_ref, decr_ref,
}
use fileupload.Meta.Files.{insert_file, delete_rows, live_file, refs}
use fileupload.Meta.Files.Laws.{
  refs-insert_file, refs-delete_rows, insert_file-IsKeyed, delete_rows-IsKeyed, IsKeyed,
}
use fileupload.Store.{
  set_files, acquire_row, acquire_blob, delete_file, put_file, incr_blob_ref, decr_blob_ref,
}

-- one for the digest itself, none for the others
abbrev pub one_at : Bytes → Bytes → ℕ
one_at sha k = if sha == k then 1 else 0

-- No digest has more files than its blob counts. So content that a file still names is never
-- taken for unreferenced.
pub record IsCounted (d : Db) : Type 0 where
  pub keyed : IsKeyed d.files
  pub covered : (k : Bytes) → is_empty k ≡ false → refs k d.files ≤ count_of k d.blobs

-- The same, with one reference to spare for a digest.
pub record HasSpare (sha : Bytes) (d : Db) : Type 0 where
  pub keyed : IsKeyed d.files
  pub covered :
      (k : Bytes) → is_empty k ≡ false → refs k d.files + one_at sha k ≤ count_of k d.blobs

pub HasSpare-IsCounted : (sha : Bytes) (d : Db) → HasSpare sha d → IsCounted d
HasSpare-IsCounted sha d h = record {
  keyed = h.keyed;
  covered = λ k hk. ground (arith, h.covered k hk);
}

incr_ref-HasSpare :
    (sha : Bytes) (d : Db)
    → has_blob sha d.blobs ≡ true
    → IsCounted d
    → HasSpare sha (record d { blobs = incr_ref sha d.blobs })
incr_ref-HasSpare sha d known h = record {
  keyed = h.keyed;
  covered = λ k hk. ground (arith, h.covered k hk, count_of-incr_ref sha k d.blobs, eq_iff sha k);
}

incr_ref_absent :
    (sha : Bytes) (d : Db)
    → has_blob sha d.blobs ≡ false
    → IsCounted d
    → IsCounted (record d { blobs = incr_ref sha d.blobs })
incr_ref_absent sha d unknown h = record {
  keyed = h.keyed;
  covered = λ k hk. ground (
    arith,
    h.covered k hk,
    count_of-incr_ref sha k d.blobs,
    count_of_absent k d.blobs,
    eq_iff sha k,
  );
}

decr_ref-IsCounted :
    (sha : Bytes) (d : Db) → HasSpare sha d → IsCounted (record d { blobs = decr_ref sha d.blobs })
decr_ref-IsCounted sha d h = record {
  keyed = h.keyed;
  covered = λ k hk. ground (arith, h.covered k hk, count_of-decr_ref sha k d.blobs, eq_iff sha k);
}

-- What holds of the tables after an action, by its outcome.
abbrev pub Outcome : {A : Type 0} → (Db → Type 0) → (Db → Type 0) → Result A → Db → Type 0
Outcome P Q (ok a) d = P d
Outcome P Q (err e) d = Q d

pub incr_blob_ref-HasSpare :
    (sha : Bytes) (w : World)
    → IsCounted w.db
    → Outcome
        (HasSpare sha)
        IsCounted
        (result (incr_blob_ref sha) w)
        (after (incr_blob_ref sha) w).db
unfolding incr_blob_ref
incr_blob_ref-HasSpare sha w h =
    ground (arith, incr_ref-HasSpare sha w.db, incr_ref_absent sha w.db)

pub decr_blob_ref-IsCounted :
    (sha : Bytes) (w : World) → HasSpare sha w.db → IsCounted (after (decr_blob_ref sha) w).db
unfolding decr_blob_ref
decr_blob_ref-IsCounted sha w h =
    ground (arith, decr_ref-IsCounted sha w.db h, HasSpare-IsCounted sha w.db h)

insert_file-IsCounted :
    (f : FileMetadata) (d : Db) {fs : List FileMetadata}
    → insert_file f d.files ≡ some fs
    → HasSpare f.sha256 d
    → IsCounted (record d { files = fs })
insert_file-IsCounted f d e h = record {
  keyed = insert_file-IsKeyed f d.files e h.keyed;
  covered = λ k hk. ground (arith, h.covered k hk, refs-insert_file k f d.files e);
}

set_files-IsCounted :
    (f : FileMetadata) (w : World) (r : Option (List FileMetadata))
    → insert_file f w.db.files ≡ r
    → HasSpare f.sha256 w.db
    → Outcome IsCounted (HasSpare f.sha256) (result (set_files r) w) (after (set_files r) w).db
unfolding set_files
set_files-IsCounted f w none e h = h
set_files-IsCounted f w (some fs) e h = insert_file-IsCounted f w.db e h

-- A row for a file takes up the spare reference of its digest.
pub put_file-IsCounted :
    (f : FileMetadata) (w : World)
    → HasSpare f.sha256 w.db
    → Outcome IsCounted (HasSpare f.sha256) (result (put_file f) w) (after (put_file f) w).db
unfolding put_file
put_file-IsCounted f w h = ground (
  arith,
  set_files-IsCounted f (record w { calls = w.calls + 1 }) (insert_file f w.db.files) refl h,
)

plain_row-IsCounted :
    (f : FileMetadata) (w : World) (r : Option (List FileMetadata))
    → insert_file f w.db.files ≡ r
    → is_empty f.sha256 ≡ true
    → IsCounted w.db
    → IsCounted (after (set_files r) w).db
unfolding set_files
plain_row-IsCounted f w none e plain h = h
plain_row-IsCounted f w (some fs) e plain h = record {
  keyed = insert_file-IsKeyed f w.db.files e h.keyed;
  covered =
      λ k hk. ground (arith, h.covered k hk, refs-insert_file k f w.db.files e, eq_iff f.sha256 k);
}

-- A row without a digest (a directory) needs no reference.
pub put_file-IsCounted_plain :
    (f : FileMetadata) (w : World)
    → is_empty f.sha256 ≡ true
    → IsCounted w.db
    → IsCounted (after (put_file f) w).db
unfolding put_file
put_file-IsCounted_plain f w plain h = ground (
  arith,
  plain_row-IsCounted f (record w { calls = w.calls + 1 }) (insert_file f w.db.files) refl plain h,
)

delete_rows-HasSpare :
    (id : Bytes) (f : FileMetadata) (d : Db)
    → live_file id d.files ≡ some f
    → IsCounted d
    → HasSpare f.sha256 (record d { files = delete_rows id d.files })
delete_rows-HasSpare id f d e h = record {
  keyed = delete_rows-IsKeyed id d.files h.keyed;
  covered = λ k hk. ground (arith, h.covered k hk, refs-delete_rows k id d.files f h.keyed e);
}

-- Deleting the row of a live file frees a reference of its digest.
pub delete_file-HasSpare :
    (id : Bytes) (f : FileMetadata) (w : World)
    → live_file id w.db.files ≡ some f
    → IsCounted w.db
    → Outcome
        (HasSpare f.sha256)
        IsCounted
        (result (delete_file id) w)
        (after (delete_file id) w).db
unfolding delete_file
delete_file-HasSpare id f w e h = ground (arith, delete_rows-HasSpare id f w.db e h)

insert_or_ignore-HasSpare :
    (b : ContentBlob) (d : Db)
    → has_blob b.sha256 d.blobs ≡ false
    → IsCounted d
    → HasSpare b.sha256 (record d { blobs = insert_or_ignore (record b { ref_count = 1 }) d.blobs })
insert_or_ignore-HasSpare b d new h = record {
  keyed = h.keyed;
  covered = λ k hk. ground (
    arith,
    h.covered k hk,
    count_of-insert_or_ignore k (record b { ref_count = 1 }) d.blobs,
    count_of_absent k d.blobs,
    eq_iff b.sha256 k,
  );
}

acquire_row-HasSpare :
    (b : ContentBlob) (w : World) (r : Option ContentBlob)
    → blob_by_sha b.sha256 w.db.blobs ≡ r
    → IsCounted w.db
    → Outcome
        (HasSpare b.sha256)
        IsCounted
        (result (acquire_row b r) w)
        (after (acquire_row b r) w).db
unfolding acquire_row has_blob
acquire_row-HasSpare b w none e h = insert_or_ignore-HasSpare b w.db (rw (e, has_blob)) h
acquire_row-HasSpare b w (some row) e h = incr_ref-HasSpare b.sha256 w.db (rw (e, has_blob)) h

-- A blob that was acquired, new or known, has a reference to spare.
pub acquire_blob-HasSpare :
    (b : ContentBlob) (w : World)
    → IsCounted w.db
    → Outcome
        (HasSpare b.sha256)
        IsCounted
        (result (acquire_blob b) w)
        (after (acquire_blob b) w).db
unfolding acquire_blob
acquire_blob-HasSpare b w h = ground (
  arith,
  acquire_row-HasSpare b (record w { calls = w.calls + 1 }) (blob_by_sha b.sha256 w.db.blobs) refl
      h,
)
