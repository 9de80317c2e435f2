-- ===== src/Download.antt =====
-- internal/domain/download.go: GetFile, the download of a file or of a range of it.
pub mod Range
pub mod Directory
pub mod Ancestors
pub mod Lookup
pub mod Bundle
pub mod Listing
use fileupload.Domain.{corrupted, invalid_argument, err, ok, ContentBlob, Result, FileMetadata}
use fileupload.Upload.Delete.{owned}
use fileupload.Base.{
  pos_part, ◌-◌, some, leb, none, zero, false, ltb, is_empty, suc, ◌&&◌, if◌then◌else◌, negsuc,
  true, Bytes, not, pos, ℕ, Option, Bool, ℤ,
}
use fileupload.World.{lift, pure, raise, Exec, ◌>>=◌, ◌>>◌}
use fileupload.Store.{get_file, get_blob_by_sha}
use fileupload.Storage.LocalFs.{open_object, data_dir}

-- DownloadRange
pub record DownloadRange : Type 0 where
  pub offset : ℤ
  pub length : ℤ
  pub requested : Bool

abbrev is_zero_ℤ : ℤ → Bool
is_zero_ℤ (pos zero) = true
is_zero_ℤ _ = false

-- IsZero
unfoldable pub is_zero : DownloadRange → Bool
is_zero r = not r.requested && is_zero_ℤ r.offset && is_zero_ℤ r.length

-- the length that is read where so many bytes are left; 0 means all of them
unfoldable pub clip : ℕ → ℤ → ℤ
clip left (pos zero) = pos left
clip left (pos (suc n)) = if ltb left (suc n) then pos left else pos (suc n)
clip left (negsuc n) = negsuc n

-- the range of a request that is not the whole file
unfoldable pub part_range : ℕ → ℤ → ℤ → Result (ℕ × ℤ)
unfolding clip
part_range size (negsuc n) len = err invalid_argument
part_range size (pos o) len =
    if leb size o then err invalid_argument else ok (o, clip (size - o) len)

-- the offset and the length that are read of a blob of this size
unfoldable pub resolve_range : ℕ → DownloadRange → Result (ℕ × ℤ)
unfolding is_zero part_range
resolve_range size r = if is_zero r then ok (0, pos size) else part_range size r.offset r.length

-- FileReader, its reader being the bytes that it delivers
pub record FileReader : Type 0 where
  pub file : FileMetadata
  pub blob : ContentBlob
  pub content : Bytes
  pub file_size : ℕ
  pub range : DownloadRange

unfoldable pub stored : Option ContentBlob → Exec ContentBlob
stored none = raise corrupted
stored (some b) = pure b

-- the end of GetFile
unfoldable pub read_range : FileMetadata → ContentBlob → DownloadRange → Exec FileReader
unfolding resolve_range
read_range f b r = do
  (offset, len) ← lift (resolve_range b.size r)
  content ← open_object data_dir b.storage_path offset (pos_part len)
  pure (record {
    file = f;
    blob = b;
    content = content;
    file_size = b.size;
    range = record { offset = pos offset; length = len; requested = r.requested };
  })

unfoldable pub download_file : Bytes → Bytes → DownloadRange → Exec FileReader
unfolding owned stored read_range
download_file id ns r = do
  found ← get_file id
  f ← owned ns found
  known ← (if is_empty f.sha256 then pure none else get_blob_by_sha f.sha256)
  b ← stored known
  read_range f b r
