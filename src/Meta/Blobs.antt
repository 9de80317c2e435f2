-- ===== src/Meta/Blobs.antt =====
-- internal/adapters/metadata/sqlite.go: the statements on the table content_blobs.
use fileupload.Base.{
  ℕ, ◌+◌, ◌-◌, Bool, true, false, not, ◌&&◌, ◌≡◌, Option, none, some, List, [], ◌∷◌, ◌++◌, Bytes,
  ◌==◌, eq_iff, if◌then◌else◌, find?, update_where, arith,
}
use fileupload.Domain.{ContentBlob}

-- SELECT ... FROM content_blobs WHERE sha256 = ?
unfoldable pub blob_by_sha : Bytes → List ContentBlob → Option ContentBlob
blob_by_sha sha = find? (λ b. b.sha256 == sha)

-- UPDATE content_blobs SET ref_count = ref_count + 1 WHERE sha256 = ?
unfoldable pub incr_ref : Bytes → List ContentBlob → List ContentBlob
incr_ref sha = update_where (λ b. b.sha256 == sha) (λ b. record b { ref_count = b.ref_count + 1 })

-- UPDATE content_blobs SET ref_count = MAX(0, ref_count - 1) WHERE sha256 = ?
unfoldable pub decr_ref : Bytes → List ContentBlob → List ContentBlob
decr_ref sha = update_where (λ b. b.sha256 == sha) (λ b. record b { ref_count = b.ref_count - 1 })

-- UPDATE content_blobs SET storage_path = ? WHERE sha256 = ?
unfoldable pub set_storage_path : Bytes → Bytes → List ContentBlob → List ContentBlob
set_storage_path sha path =
    update_where (λ b. b.sha256 == sha) (λ b. record b { storage_path = path })

-- INSERT OR IGNORE INTO content_blobs
unfoldable pub insert_or_ignore : ContentBlob → List ContentBlob → List ContentBlob
unfolding blob_by_sha
insert_or_ignore b bs = elim (blob_by_sha b.sha256 bs) [ none ↦ bs ++ b ∷ [] | some _ ↦ bs ]

-- What the row of a digest says: its count, 0 where there is no row.
unfoldable pub count_of : Bytes → List ContentBlob → ℕ
unfolding blob_by_sha
count_of sha bs = elim (blob_by_sha sha bs) [ none ↦ 0 | some b ↦ b.ref_count ]

unfoldable pub has_blob : Bytes → List ContentBlob → Bool
unfolding blob_by_sha
has_blob sha bs = elim (blob_by_sha sha bs) [ none ↦ false | some _ ↦ true ]

pub count_of-incr_ref :
    (sha k : Bytes) (bs : List ContentBlob)
    → count_of k (incr_ref sha bs)
      ≡ (if sha == k then (if has_blob sha bs then count_of k bs + 1 else 0) else count_of k bs)
unfolding count_of has_blob incr_ref
count_of-incr_ref sha k [] = ground arith
count_of-incr_ref sha k (b ∷ bs) =
    ground (arith, eq_iff sha k, eq_iff b.sha256 sha, eq_iff b.sha256 k, count_of-incr_ref sha k bs)

pub count_of-decr_ref :
    (sha k : Bytes) (bs : List ContentBlob)
    → count_of k (decr_ref sha bs) ≡ (if sha == k then count_of k bs - 1 else count_of k bs)
unfolding count_of decr_ref
count_of-decr_ref sha k [] = ground arith
count_of-decr_ref sha k (b ∷ bs) =
    ground (arith, eq_iff sha k, eq_iff b.sha256 sha, eq_iff b.sha256 k, count_of-decr_ref sha k bs)

pub has_blob-incr_ref :
    (sha k : Bytes) (bs : List ContentBlob) → has_blob k (incr_ref sha bs) ≡ has_blob k bs
unfolding has_blob incr_ref
has_blob-incr_ref sha k [] = ground arith
has_blob-incr_ref sha k (b ∷ bs) =
    ground (arith, eq_iff b.sha256 sha, eq_iff b.sha256 k, has_blob-incr_ref sha k bs)

pub has_blob-decr_ref :
    (sha k : Bytes) (bs : List ContentBlob) → has_blob k (decr_ref sha bs) ≡ has_blob k bs
unfolding has_blob decr_ref
has_blob-decr_ref sha k [] = ground arith
has_blob-decr_ref sha k (b ∷ bs) =
    ground (arith, eq_iff b.sha256 sha, eq_iff b.sha256 k, has_blob-decr_ref sha k bs)

-- The path of a digest does not depend on its count.
pub path_of : Bytes → List ContentBlob → Option Bytes
unfolding blob_by_sha
path_of sha bs = elim (blob_by_sha sha bs) [ none ↦ none | some b ↦ some b.storage_path ]

pub path_of-incr_ref :
    (sha k : Bytes) (bs : List ContentBlob) → path_of k (incr_ref sha bs) ≡ path_of k bs
unfolding path_of incr_ref
path_of-incr_ref sha k [] = ground arith
path_of-incr_ref sha k (b ∷ bs) =
    ground (arith, eq_iff b.sha256 sha, eq_iff b.sha256 k, path_of-incr_ref sha k bs)

pub path_of-decr_ref :
    (sha k : Bytes) (bs : List ContentBlob) → path_of k (decr_ref sha bs) ≡ path_of k bs
unfolding path_of decr_ref
path_of-decr_ref sha k [] = ground arith
path_of-decr_ref sha k (b ∷ bs) =
    ground (arith, eq_iff b.sha256 sha, eq_iff b.sha256 k, path_of-decr_ref sha k bs)

blob_by_sha-append :
    (k : Bytes) (bs : List ContentBlob) (b : ContentBlob)
    → blob_by_sha k (bs ++ b ∷ []) ≡ elim (blob_by_sha k bs) [
      | none ↦ (if b.sha256 == k then some b else none)
      | some c ↦ some c
    ]
unfolding blob_by_sha
blob_by_sha-append k [] b = ground arith
blob_by_sha-append k (c ∷ bs) b = ground (arith, blob_by_sha-append k bs b)

-- The row that an insertion adds is found under its digest, unless one was there.
pub blob_by_sha-insert_or_ignore :
    (k : Bytes) (b : ContentBlob) (bs : List ContentBlob)
    → blob_by_sha k (insert_or_ignore b bs)
      ≡ (if b.sha256 == k && not (has_blob k bs) then some b else blob_by_sha k bs)
unfolding insert_or_ignore has_blob
blob_by_sha-insert_or_ignore k b bs = ground (arith, eq_iff b.sha256 k, blob_by_sha-append k bs b)

pub count_of_absent :
    (k : Bytes) (bs : List ContentBlob) → has_blob k bs ≡ false → count_of k bs ≡ 0
unfolding count_of has_blob
count_of_absent k bs h = ground arith

pub count_of-insert_or_ignore :
    (k : Bytes) (b : ContentBlob) (bs : List ContentBlob)
    → count_of k (insert_or_ignore b bs)
      ≡ (if b.sha256 == k && not (has_blob k bs) then b.ref_count else count_of k bs)
unfolding count_of has_blob
count_of-insert_or_ignore k b bs =
    ground (arith, eq_iff b.sha256 k, blob_by_sha-insert_or_ignore k b bs)

pub count_of-set_storage_path :
    (sha path k : Bytes) (bs : List ContentBlob)
    → count_of k (set_storage_path sha path bs) ≡ count_of k bs
unfolding count_of set_storage_path
count_of-set_storage_path sha path k [] = ground arith
count_of-set_storage_path sha path k (b ∷ bs) =
    ground (arith, count_of-set_storage_path sha path k bs)
