-- ===== src/Upload/Instant.antt =====
-- internal/domain/upload.go: CheckExists, which makes a logical file out of content that is stored
-- already; internal/domain/refcount.go: IncrWithRollback.
pub mod References
use fileupload.Base.{ℕ, false, not, Option, none, some, [], Bytes, is_empty, pos, if◌then◌else◌}
use fileupload.Domain.{ContentBlob, FileMetadata, invalid_argument}
use fileupload.World.{Exec, pure, gets, require, ignore, defer, or_else, ◌>>=◌, ◌>>◌}
use fileupload.Ids.{new_id}
use fileupload.Store.{get_blob_by_sha, incr_blob_ref, decr_blob_ref, put_file}
use fileupload.Upload.Config.{UploadConfig, reserve_namespace, release_namespace}

-- An increment, then `body`; if that fails the increment is taken back.
unfoldable pub incr_with_rollback : {A : Type 0} → Bytes → Exec A → Exec A
incr_with_rollback sha body = do incr_blob_ref sha; or_else body (ignore (decr_blob_ref sha))

-- the record of a logical file of the blob
abbrev pub instant_file : Bytes → Bytes → Bytes → Bytes → ContentBlob → ℕ → FileMetadata
instant_file id sha ns name blob now = record {
  file_id = id;
  sha256 = sha;
  name = name;
  path = name;
  size = blob.size;
  namespace = ns;
  is_dir = false;
  parent_id = [];
  tags = [];
  created_at = now;
  deleted_at = none;
}

unfoldable pub link_file : Bytes → Bytes → Bytes → Bytes → ContentBlob → Exec (Option FileMetadata)
unfolding incr_with_rollback
link_file id sha ns name blob = do
  now ← gets (λ w. w.now)
  let f = instant_file id sha ns name blob now
  incr_with_rollback sha (put_file f)
  pure (some f)

unfoldable pub instant_upload :
    UploadConfig → Bytes → Bytes → Bytes → ContentBlob → Exec (Option FileMetadata)
unfolding link_file
instant_upload cfg sha ns name blob = do
  id ← new_id
  reserved ← reserve_namespace cfg id ns (pos blob.size)
  defer (if reserved then release_namespace id else pure tt) (link_file id sha ns name blob)

link_found : UploadConfig → Bytes → Bytes → Bytes → Option ContentBlob → Exec (Option FileMetadata)
unfolding instant_upload
link_found cfg sha ns name none = pure none
link_found cfg sha ns name (some blob) = instant_upload cfg sha ns name blob

unfoldable pub check_exists : UploadConfig → Bytes → Bytes → Bytes → Exec (Option FileMetadata)
unfolding link_found
check_exists cfg sha ns name = do
  require (not (is_empty sha)) invalid_argument
  found ← get_blob_by_sha sha
  link_found cfg sha ns name found
