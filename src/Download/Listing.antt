-- ===== src/Download/Listing.antt =====
-- internal/domain/download.go: ListDir, ListDirPage, Stat and GetNamespaceUsage.
use fileupload.Store.Pages.{search_children, list_children_page, list_root_page, list_root}
use fileupload.Store.{get_blob_by_sha, get_file}
use fileupload.Upload.Delete.{owned}
use fileupload.Domain.{not_found, err, ok, FileMetadata, ContentBlob, Result}
use fileupload.World.{attempt, require, pure, raise, Exec, ◌>>=◌, ◌>>◌}
use fileupload.Base.{
  bytes, none, some, ◌==◌, if◌then◌else◌, ◌||◌, ℤ, is_empty, Option, Bool, ℕ, List, Bytes,
}

-- parentID == "" || parentID == "/" || parentID == "root"
unfoldable pub is_root : Bytes → Bool
is_root id = is_empty id || (id == bytes "/" || id == bytes "root")

module _ (like : Bytes → Bytes → Bool) where
  -- ListDir
  unfoldable pub list_dir : Bytes → Bytes → Bytes → Exec (Option FileMetadata × List FileMetadata)
  unfolding is_root owned
  list_dir parent ns text =
      if is_root parent then (do children ← list_root like ns text; pure (none, children)) else (do
        found ← get_file parent
        dir ← owned ns found
        children ← search_children like parent text
        pure (some dir, children))

  -- ListDirPage
  unfoldable pub list_dir_page :
      Bytes
      → Bytes
      → Bytes
      → Bytes
      → ℤ
      → ℤ
      → Bytes
      → Bytes
      → Exec (Option FileMetadata × List FileMetadata × ℕ)
  unfolding is_root owned
  list_dir_page parent ns text file_type page per_page sort order =
      if is_root parent
      then (do
        (children, total) ← list_root_page like ns text file_type page per_page sort order
        pure (none, children, total))
      else (do
        found ← get_file parent
        dir ← owned ns found
        (children, total) ← list_children_page like parent text file_type page per_page sort order
        pure (some dir, children, total))

abbrev or_no_blob : Result (Option ContentBlob) → Option ContentBlob
or_no_blob (ok b) = b
or_no_blob (err e) = none

-- a file of another namespace counts as missing
unfoldable pub stat_found : Bytes → Option FileMetadata → Exec (FileMetadata × Option ContentBlob)
stat_found ns none = raise not_found
stat_found ns (some f) = do
  require (f.namespace == ns) not_found
  blob ←
      (if is_empty f.sha256 || f.is_dir then pure (ok none) else attempt (get_blob_by_sha f.sha256))
  pure (f, or_no_blob blob)

-- Stat
unfoldable pub stat_file : Bytes → Bytes → Exec (FileMetadata × Option ContentBlob)
unfolding stat_found
stat_file id ns = do found ← get_file id; stat_found ns found
