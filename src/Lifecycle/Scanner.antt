-- ===== src/Lifecycle/Scanner.antt =====
-- internal/lifecycle/reaper.go: ConsistencyScanner. Its Walk goes through the store of contents; the
-- temporary directory it reads itself, so a file in it is an object whose path has one part.
pub mod Loops
pub mod Reports
use fileupload.Storage.Paths.{slash}
use fileupload.Upload.Names.{has_byte, base_name}
use fileupload.Storage.LocalFs.{data_dir, stat}
use fileupload.Store.{get_file}
use fileupload.Domain.{err, ok, FileMetadata, Result, ContentBlob}
use fileupload.World.{gets, pure, attempt, backend_call, Object, Exec, ◌>>=◌, ◌>>◌}
use fileupload.Base.{
  none, some, length, ◌+◌, ◌==◌, select, [], if◌then◌else◌, true, eqb, false, not, ◌∷◌, Bool,
  Option, ℕ, List, Bytes,
}

-- ScannerReport
pub record ScannerReport : Type 0 where
  pub orphan_parts : ℕ
  pub orphan_files : List Bytes
  pub metadata_orphans : ℕ
  pub ref_count_fixes : ℕ
  pub corrupted_files : List Bytes

-- ListAllBlobs
unfoldable pub list_all_blobs : Exec (List ContentBlob)
list_all_blobs = do backend_call; gets (λ w. w.db.blobs)

-- ListFilesByBlob: its rows, in the recycle bin or not
unfoldable pub list_files_by_blob : Bytes → Exec (List FileMetadata)
list_files_by_blob sha = do backend_call; gets (λ w. select (λ f. f.sha256 == sha) w.db.files)

abbrev pub or_no_blobs : Result (List ContentBlob) → List ContentBlob
or_no_blobs (ok bs) = bs
or_no_blobs (err e) = []

-- err != nil || dbFile == nil
abbrev pub is_missing : Result (Option FileMetadata) → Bool
is_missing (ok (some f)) = false
is_missing (ok none) = true
is_missing (err e) = true

-- the visits of scanOrphanFiles: the base name of a path is taken for the identifier of a file
unfoldable pub orphans_among : List Object → Exec (List Bytes)
orphans_among [] = pure []
orphans_among (o ∷ os) = do
  found ← attempt (get_file (base_name o.path))
  rest ← orphans_among os
  pure (if is_missing found then o.path ∷ rest else rest)

-- a walk that fails visits nothing
abbrev pub visited : Result (Unit {0}) → List Object → List Object
visited (ok u) os = os
visited (err e) os = []

-- the entries of the temporary directory that are no directories
unfoldable pub stray_parts : List Object → ℕ
unfolding has_byte
stray_parts [] = 0
stray_parts (o ∷ os) = (if has_byte slash o.path then 0 else 1) + stray_parts os

-- scanOrphanParts
unfoldable pub scan_orphan_parts : Exec ℕ
unfolding stray_parts
scan_orphan_parts = do
  read ← attempt backend_call
  os ← gets (λ w. w.temp)
  pure (stray_parts (visited read os))

unfoldable pub scan_orphan_files : Exec (List Bytes)
unfolding orphans_among
scan_orphan_files = do
  walked ← attempt backend_call
  os ← gets (λ w. w.disk)
  orphans_among (visited walked os)

-- err != nil || !exists
abbrev pub is_lost : Result (ℕ × Bool) → Bool
is_lost (ok (size, exists)) = not exists
is_lost (err e) = true

unfoldable pub lost_among : List ContentBlob → Exec ℕ
lost_among [] = pure 0
lost_among (b ∷ bs) = do
  seen ← attempt (stat data_dir b.storage_path)
  rest ← lost_among bs
  pure ((if is_lost seen then 1 else 0) + rest)

unfoldable pub scan_metadata_orphans : Exec ℕ
unfolding list_all_blobs lost_among
scan_metadata_orphans = do blobs ← attempt list_all_blobs; lost_among (or_no_blobs blobs)

-- actualCount != blob.RefCount, unless the files cannot be listed
abbrev pub has_drifted : ContentBlob → Result (List FileMetadata) → Bool
has_drifted b (ok fs) = not (eqb (length fs) b.ref_count)
has_drifted b (err e) = false

unfoldable pub drifted_among : List ContentBlob → Exec ℕ
unfolding list_files_by_blob
drifted_among [] = pure 0
drifted_among (b ∷ bs) = do
  fs ← attempt (list_files_by_blob b.sha256)
  rest ← drifted_among bs
  pure ((if has_drifted b fs then 1 else 0) + rest)

unfoldable pub scan_ref_count : Exec ℕ
unfolding list_all_blobs drifted_among
scan_ref_count = do blobs ← attempt list_all_blobs; drifted_among (or_no_blobs blobs)

-- Scan; no check fills in corrupted_files
unfoldable pub scan : Exec ScannerReport
unfolding scan_orphan_parts scan_orphan_files scan_metadata_orphans scan_ref_count
scan = do
  parts ← scan_orphan_parts
  orphans ← scan_orphan_files
  lost ← scan_metadata_orphans
  drifted ← scan_ref_count
  pure (record {
    orphan_parts = parts;
    orphan_files = orphans;
    metadata_orphans = lost;
    ref_count_fixes = drifted;
    corrupted_files = [];
  })
