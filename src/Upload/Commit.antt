-- ===== src/Upload/Commit.antt =====
-- internal/domain/finalize.go: mergeChunks, verifyStream and commitStreamWithGuard. A stream is the
-- bytes that it delivers, or none if reading it fails. `sum_hex` is the digest; `decompress` is
-- internal/adapters/compressor, whose codecs are third-party packages: it refuses a format, or
-- gives the stream of the original content.
pub mod Content
use mathlib.Core.Option
use fileupload.Upload.Append.{part_path}
use fileupload.Store.{decr_blob_ref, put_file, acquire_blob}
use fileupload.Upload.Names.{base_name}
use fileupload.Storage.LocalFs.{open_object, temp_dir, delete_object, data_dir, write}
use fileupload.Ids.{new_id}
use fileupload.Upload.Config.{reserve_namespace, UploadConfig}
use fileupload.Domain.{
  Result, backend, content_checksum, err, ok, FileMetadata, ContentBlob, ChunkInfo, UploadSession,
}
use fileupload.Base.{
  pos, [], none, false, ◌==◌, ◌∷◌, ◌++◌, some, ◌||◌, if◌then◌else◌, length, is_empty, Bool, List, ℕ,
  Option, Bytes,
}
use fileupload.World.{attempt, ignore, raise, gets, require, pure, or_else, Exec, ◌>>=◌, ◌>>◌}

-- The goroutine stops at the first part that cannot be opened.
unfoldable pub merge_rest : Result Bytes → Exec (Option Bytes) → Exec (Option Bytes)
merge_rest (err e) more = pure none
merge_rest (ok part) more = do rest ← more; pure (Option.map (λ r. part ++ r) rest)

-- the content of the parts in a row
unfoldable pub merge_parts : Bytes → List ChunkInfo → Exec (Option Bytes)
unfolding merge_rest
merge_parts id [] = pure (some [])
merge_parts id (c ∷ cs) = do
  part ← attempt (open_object temp_dir (part_path id c.index) 0 0)
  merge_rest part (merge_parts id cs)

-- the cleanup of mergeChunks
unfoldable pub remove_parts : Bytes → List ChunkInfo → Exec (Unit {0})
remove_parts id [] = pure tt
remove_parts id (c ∷ cs) = do
  ignore (delete_object temp_dir (part_path id c.index))
  remove_parts id cs

-- session.SHA256 != "" && actualSha != session.SHA256, for no content that passes
abbrev pub declared_matches : Bytes → Bytes → Bool
declared_matches declared actual = is_empty declared || actual == declared

module _ (sum_hex : Bytes → Bytes) where
  abbrev pub blob_of : Bytes → Bytes → ℕ → ContentBlob
  blob_of path content now = record {
    sha256 = sum_hex content;
    storage_path = path;
    size = length content;
    ref_count = 1;
    created_at = now;
  }

  abbrev pub file_of : UploadSession → Bytes → Bytes → ℕ → FileMetadata
  file_of s id content now =
      let name = if is_empty s.file_name then id else s.file_name in
      record {
        file_id = id;
        sha256 = sum_hex content;
        name = base_name name;
        path = name;
        size = length content;
        namespace = s.namespace;
        is_dir = false;
        parent_id = [];
        tags = [];
        created_at = now;
        deleted_at = none;
      }

  -- steps 4 and 5: the blob's row, and the file's
  unfoldable pub record_content : UploadSession → Bytes → Bytes → Exec FileMetadata
  record_content s path content = do
    id ← new_id
    now ← gets (λ w. w.now)
    (_, inserted) ←
        or_else (acquire_blob (blob_of path content now)) (ignore (delete_object data_dir path))
    if inserted then pure tt else ignore (delete_object data_dir path)
    let f = file_of s id content now
    or_else (put_file f) (ignore (decr_blob_ref f.sha256))
    pure f

  -- step 3 and the guard, on the content that was written
  unfoldable pub check_content : UploadConfig → UploadSession → Bytes → Bytes → Exec (Unit {0})
  check_content cfg s path content = do
    or_else (require (declared_matches s.sha256 (sum_hex content)) content_checksum)
        (ignore (delete_object data_dir path))
    reserved ←
        or_else (reserve_namespace cfg s.session_id s.namespace (pos (length content)))
          (ignore (delete_object data_dir path))
    pure tt

  -- commitStreamWithGuard; the size that Write returns is the number of bytes read
  unfoldable pub commit_stream :
      UploadConfig → UploadSession → Bytes → Option Bytes → Exec FileMetadata
  unfolding check_content record_content
  commit_stream cfg s path none = do written ← write data_dir path none; raise backend
  commit_stream cfg s path (some content) = do
    written ← write data_dir path (some content)
    check_content cfg s path content
    record_content s path content
