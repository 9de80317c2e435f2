-- ===== src/Download/Lookup.antt =====
-- internal/adapters/metadata/sqlite.go and batch_query_helpers.go: GetFilesByIDs and GetBlobsBySha, which
-- answer many keys by a query for each 500 of them.
pub mod Batched
use fileupload.Meta.Files.{is_live}
use fileupload.Upload.Trash.{is_seen}
use fileupload.Domain.{FileMetadata, ContentBlob}
use fileupload.World.{gets, backend_call, pure, World, Exec, ◌>>=◌, ◌>>◌}
use fileupload.Base.{
  zero, ◌++◌, ◌||◌, ◌&&◌, drop, is_empty, take, select, if◌then◌else◌, suc, length, ◌∷◌, [], ℕ,
  List, Bytes,
}

-- uniqueNonEmpty, with the values that were seen
unfoldable pub unique_from : List Bytes → List Bytes → List Bytes
unique_from seen [] = []
unique_from seen (v ∷ vs) =
    let again = unique_from seen vs in
    let fresh = v ∷ unique_from (v ∷ seen) vs in
    if is_empty v || is_seen v seen then again else fresh

unfoldable pub unique_non_empty : List Bytes → List Bytes
unfolding unique_from
unique_non_empty vs = unique_from [] vs

-- the batches of 500, on fuel
unfoldable pub batches : ℕ → List Bytes → List (List Bytes)
batches fuel [] = []
batches zero (v ∷ vs) = []
batches (suc fuel) (v ∷ vs) = take 500 (v ∷ vs) ∷ batches fuel (drop 500 (v ∷ vs))

-- SELECT ... FROM files WHERE file_id IN (...) AND deleted_at IS NULL
unfoldable pub live_files_in : List Bytes → List FileMetadata → List FileMetadata
live_files_in ids = select (λ f. is_seen f.file_id ids && is_live f)

-- SELECT ... FROM content_blobs WHERE sha256 IN (...)
unfoldable pub blobs_in : List Bytes → List ContentBlob → List ContentBlob
blobs_in shas = select (λ b. is_seen b.sha256 shas)

-- the loop over the batches, for either table
unfoldable pub query_all :
    {A : Type 0} → (List Bytes → World → List A) → List (List Bytes) → Exec (List A)
query_all query [] = pure []
query_all query (b ∷ bs) = do
  backend_call
  rows ← gets (query b)
  rest ← query_all query bs
  pure (rows ++ rest)

abbrev pub all_batches : List Bytes → List (List Bytes)
all_batches vs = let us = unique_non_empty vs in batches (length us) us

unfoldable pub get_files_by_ids : List Bytes → Exec (List FileMetadata)
unfolding query_all live_files_in unique_non_empty batches
get_files_by_ids ids = query_all (λ b w. live_files_in b w.db.files) (all_batches ids)

-- result[blob.SHA256]; the digest is the primary key
unfoldable pub get_blobs_by_sha : List Bytes → Exec (List ContentBlob)
unfolding query_all blobs_in unique_non_empty batches
get_blobs_by_sha shas = query_all (λ b w. blobs_in b w.db.blobs) (all_batches shas)
