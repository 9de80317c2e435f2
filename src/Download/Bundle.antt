-- ===== src/Download/Bundle.antt =====
-- internal/domain/download.go: StreamBatch with batchFiles and batchBlobs, up to the names and contents
-- that it hands to the archive writer (a codec).
pub mod NameClash
use fileupload.Storage.LocalFs.{data_dir, open_object}
use fileupload.Upload.Append.{decimal}
use fileupload.Upload.Trash.{item_by_id}
use fileupload.Download.Lookup.{get_blobs_by_sha, get_files_by_ids}
use fileupload.Meta.Blobs.{blob_by_sha}
use fileupload.Domain.{not_found, ok, err, FileMetadata, ContentBlob, Result}
use fileupload.World.{require, attempt, pure, Exec, ◌>>=◌, ◌>>◌}
use fileupload.Base.{
  none, some, sort_by, is_nil, is_empty, ◌++◌, map, [], ◌+◌, ◌&&◌, not, ltb, ◌==◌, bytes_leb, ◌∷◌,
  if◌then◌else◌, Bool, ℕ, List, Bytes,
}

-- a fileEntry
pub record BundleEntry : Type 0 where
  pub name : Bytes
  pub size : ℕ
  pub blob : ContentBlob

-- file == nil || file.IsDir || file.Namespace != namespace || file.SHA256 == ""
unfoldable pub is_candidate : Bytes → FileMetadata → Bool
is_candidate ns f = not f.is_dir && (f.namespace == ns && not (is_empty f.sha256))

-- the candidates, in the order of the request
unfoldable pub candidates : Bytes → List FileMetadata → List Bytes → List FileMetadata
unfolding is_candidate
candidates ns found [] = []
candidates ns found (id ∷ ids) =
    let rest = candidates ns found ids in
    elim (item_by_id id found) [
      | none ↦ rest
      | some f ↦ if is_candidate ns f then f ∷ rest else rest
    ]

-- nameCount[name]
unfoldable pub count_name : Bytes → List Bytes → ℕ
count_name name [] = 0
count_name name (n ∷ ns) = (if n == name then 1 else 0) + count_name name ns

-- the name of an entry, after the names that were counted before it
unfoldable pub unique_name : List Bytes → Bytes → Bytes
unfolding count_name
unique_name counted name =
    let n = count_name name counted in if ltb 0 n then decimal n ++ b'_' ∷ name else name

-- the loop that names the entries
unfoldable pub name_entries : List ContentBlob → List Bytes → List FileMetadata → List BundleEntry
unfolding unique_name
name_entries blobs counted [] = []
name_entries blobs counted (f ∷ fs) =
    let skipped = name_entries blobs counted fs in
    let rest = name_entries blobs (f.name ∷ counted) fs in
    elim (blob_by_sha f.sha256 blobs) [
      | none ↦ skipped
      | some b ↦ record { name = unique_name counted f.name; size = f.size; blob = b } ∷ rest
    ]

unfoldable pub by_entry_name : BundleEntry → BundleEntry → Bool
by_entry_name d e = bytes_leb d.name e.name

-- the entries of the archive, before it is written
unfoldable pub bundle_entries : List Bytes → Bytes → Exec (List BundleEntry)
unfolding candidates name_entries by_entry_name
bundle_entries ids ns = do
  found ← get_files_by_ids ids
  let fs = candidates ns found ids
  blobs ← get_blobs_by_sha (map (λ f. f.sha256) fs)
  let entries = name_entries blobs [] fs
  require (not (is_nil entries)) not_found
  pure (sort_by by_entry_name entries)

-- a part of the archive
pub record Part : Type 0 where
  pub name : Bytes
  pub size : ℕ
  pub content : Bytes

unfoldable pub read_part : BundleEntry → Result Bytes → List Part → List Part
read_part e (err x) rest = rest
read_part e (ok content) rest = record { name = e.name; size = e.size; content = content } ∷ rest

-- the writer's loop: what cannot be opened is left out
unfoldable pub read_parts : List BundleEntry → Exec (List Part)
unfolding read_part
read_parts [] = pure []
read_parts (e ∷ es) = do
  r ← attempt (open_object data_dir e.blob.storage_path 0 0)
  rest ← read_parts es
  pure (read_part e r rest)

-- StreamBatch
unfoldable pub stream_batch : List Bytes → Bytes → Exec (List Part)
unfolding bundle_entries read_parts
stream_batch ids ns = do entries ← bundle_entries ids ns; read_parts entries
