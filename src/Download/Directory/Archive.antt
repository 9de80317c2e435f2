-- ===== src/Download/Directory/Archive.antt =====
-- internal/domain/download.go: StreamDir, up to the names and contents that it hands to the archive writer
-- (a codec).
use fileupload.Store.{get_blob_by_sha, get_file}
use fileupload.Storage.Paths.{slash}
use fileupload.Download.Bundle.{Part}
use fileupload.World.{attempt, ◌>>=◌, pure, Exec}
use fileupload.Download.Directory.{DirEntryInfo, DirWalker}
use fileupload.Domain.{err, ok, ContentBlob, FileMetadata, Result}
use fileupload.Storage.LocalFs.{open_object, data_dir}
use fileupload.Base.{[], ◌∷◌, ◌++◌, List, Option, Bytes, none, some}

abbrev or_no_file : Result (Option FileMetadata) → Option FileMetadata
or_no_file (ok f) = f
or_no_file (err e) = none

-- err != nil || blob == nil leaves the entry out
unfoldable open_blob : Result (Option ContentBlob) → Exec (Option Bytes)
open_blob (err e) = pure none
open_blob (ok none) = pure none
open_blob (ok (some b)) = do
  r ← attempt (open_object data_dir b.storage_path 0 0)
  elim r [ err e ↦ pure none | ok c ↦ pure (some c) ]

unfoldable open_entry : Option FileMetadata → Exec (Option Bytes)
unfolding open_blob
open_entry none = pure none
open_entry (some f) = do blob ← attempt (get_blob_by_sha f.sha256); open_blob blob

-- dw.Name + "/" + entry.Path
unfoldable add_part : Bytes → DirEntryInfo → Option Bytes → List Part → List Part
add_part name e none rest = rest
add_part name e (some c) rest =
    record { name = name ++ slash ∷ e.path; size = e.size; content = c } ∷ rest

unfoldable archive_parts : Bytes → List DirEntryInfo → Exec (List Part)
unfolding open_entry add_part
archive_parts name [] = pure []
archive_parts name (e ∷ es) = do
  found ← attempt (get_file e.file_id)
  content ← open_entry (or_no_file found)
  rest ← archive_parts name es
  pure (add_part name e content rest)

-- StreamDir
unfoldable stream_dir : DirWalker → Exec (List Part)
unfolding archive_parts
stream_dir dw = archive_parts dw.name dw.entries
