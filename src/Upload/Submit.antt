-- ===== src/Upload/Submit.antt =====
-- internal/domain/upload.go: SubmitDir, which makes a directory of files that were uploaded one by one, and
-- validateDirManifest; internal/domain/layout.go: Move.
pub mod Rows
pub mod Foreign
pub mod Content
use fileupload.Ids.{new_id}
use fileupload.Domain.{
  forbidden, invalid_argument, ok, err, ContentBlob, FileMetadata, DirEntry, Result, DirManifest,
}
use fileupload.World.{gets, attempt, ignore, require, raise, ◌>>=◌, ◌>>◌, pure, Exec}
use fileupload.Storage.Paths.{slash, resolve}
use fileupload.Store.{get_blob_by_sha, reparent_file, put_file, get_file, update_blob_storage}
use fileupload.Storage.LocalFs.{data_dir, delete_object, write, open_object}
use fileupload.Upload.Names.{
  is_safe_relative_path, safe_storage_relative_path, safe_storage_name, base_name, has_byte,
  hierarchical_path,
}
use fileupload.Upload.Trash.{is_seen}
use mathlib.Core.Option
use fileupload.Base.{
  bytes_leb, sort_by, take, ◌++◌, bytes, length, ◌&&◌, not, leb, ◌==◌, true, false, is_empty, eqb,
  if◌then◌else◌, map, [], Option, ℕ, Bool, ◌∷◌, Bytes, List, none, some,
}

-- strings.LastIndex(path, "/"): what stands before it
unfoldable pub parent_path : Bytes → Bytes
unfolding has_byte
parent_path [] = []
parent_path (c ∷ s) = let rest = parent_path s in if has_byte slash s then c ∷ rest else []

-- the loop over the bytes of a path: what stands before each '/'
unfoldable pub slash_prefixes : Bytes → List Bytes
slash_prefixes [] = []
slash_prefixes (c ∷ s) =
    let rest = map (λ p. c ∷ p) (slash_prefixes s) in if eqb c slash then [] ∷ rest else rest

-- dirPaths[p] = true
unfoldable pub add_paths : List Bytes → List Bytes → List Bytes
unfolding is_seen
add_paths [] seen = seen
add_paths (p ∷ ps) seen = add_paths ps (if is_seen p seen then seen else p ∷ seen)

unfoldable pub dir_paths : List DirEntry → List Bytes → List Bytes
unfolding add_paths slash_prefixes
dir_paths [] seen = seen
dir_paths (e ∷ es) seen = dir_paths es (add_paths (slash_prefixes e.path) seen)

-- dirMap: the identifiers of the directories that were made, by their paths
unfoldable pub find_dir : Bytes → List (Bytes × Bytes) → Option Bytes
find_dir p [] = none
find_dir p ((q, id) ∷ m) = if q == p then some id else find_dir p m

-- the directory for a path, or else the root
unfoldable pub dir_of : Bytes → List (Bytes × Bytes) → Bytes → Bytes
unfolding find_dir parent_path
dir_of root m path = Option.get_or (find_dir (parent_path path) m) root

unfoldable pub check_entry_file : Bytes → Option FileMetadata → Exec (Unit {0})
check_entry_file ns none = raise invalid_argument
check_entry_file ns (some f) = do
  require (not f.is_dir) invalid_argument
  require (f.namespace == ns) forbidden

-- the loop of validateDirManifest, with the paths and the files that were seen
unfoldable pub check_entries : Bytes → List Bytes → List Bytes → List DirEntry → Exec (Unit {0})
unfolding is_seen check_entry_file
check_entries ns paths files [] = pure tt
check_entries ns paths files (e ∷ es) = do
  require (not (is_empty e.file_id) && is_safe_relative_path e.path) invalid_argument
  require (not (is_seen e.path paths)) invalid_argument
  require (not (is_seen e.file_id files)) invalid_argument
  found ← get_file e.file_id
  check_entry_file ns found
  check_entries ns (e.path ∷ paths) (e.file_id ∷ files) es

-- validateDirManifest
unfoldable pub validate_dir_manifest : Bytes → DirManifest → Exec (Unit {0})
unfolding check_entries
validate_dir_manifest ns m = do
  require (leb (length m.entries) 10000) invalid_argument
  check_entries ns [] [] m.entries

-- a directory's row
unfoldable pub dir_row : Bytes → Bytes → Bytes → Bytes → Bytes → ℕ → FileMetadata
dir_row id name path ns parent now = record {
  file_id = id;
  sha256 = [];
  name = name;
  path = path;
  size = 0;
  namespace = ns;
  is_dir = true;
  parent_id = parent;
  tags = [];
  created_at = now;
  deleted_at = none;
}

-- the loop that makes the directories below the root, parents first
unfoldable pub make_dirs :
    Bytes → Bytes → ℕ → List Bytes → List (Bytes × Bytes) → Exec (List (Bytes × Bytes))
unfolding dir_row dir_of base_name
make_dirs ns root now [] m = pure m
make_dirs ns root now (p ∷ ps) m = do
  id ← new_id
  put_file (dir_row id (base_name p) p ns (dir_of root m p) now)
  make_dirs ns root now ps ((p, id) ∷ m)

-- whether two paths are the same file
unfoldable pub is_same_object : Bytes → Bytes → Bool
unfolding resolve
is_same_object src dest = elim (resolve src) [
  | err e ↦ false
  | ok p ↦ elim (resolve dest) [ err e ↦ false | ok q ↦ p == q ]
]

-- Move. The bytes are read while they are written, and creating a file that is there empties it.
unfoldable pub move_object : Bytes → Bytes → Exec (Unit {0})
unfolding open_object write delete_object is_same_object
move_object src dest = do
  content ← open_object data_dir src 0 0
  _ ← write data_dir dest (some (if is_same_object src dest then [] else content))
  delete_object data_dir src

-- a move that fails, or a path that is not written to the row, is only logged
unfoldable pub moved : Bytes → Bytes → Result (Unit {0}) → Exec (Unit {0})
unfolding update_blob_storage
moved sha dest (err e) = pure tt
moved sha dest (ok u) = ignore (update_blob_storage sha dest)

unfoldable pub place_blob : Bytes → Bytes → Result (Option ContentBlob) → Exec (Unit {0})
unfolding move_object moved
place_blob sha dest (err e) = pure tt
place_blob sha dest (ok none) = pure tt
place_blob sha dest (ok (some b)) =
    if b.storage_path == dest
    then pure tt
    else (do r ← attempt (move_object b.storage_path dest); moved sha dest r)

unfoldable pub place_content : Bytes → Bytes → Exec (Unit {0})
unfolding place_blob
place_content sha dest =
    if is_empty sha
    then pure tt
    else (do blob ← attempt (get_blob_by_sha sha); place_blob sha dest blob)

unfoldable pub place_found :
    Bytes → Bytes → DirEntry → Bytes → Result (Option FileMetadata) → Exec (Unit {0})
unfolding hierarchical_path safe_storage_name safe_storage_relative_path place_content
place_found ns name e parent (err x) = pure tt
place_found ns name e parent (ok none) = pure tt
place_found ns name e parent (ok (some f)) = do
  ignore (reparent_file e.file_id parent e.path)
  place_content f.sha256
      (hierarchical_path ns (safe_storage_name name) (safe_storage_relative_path e.path))

-- the loop that puts the files into their directories
unfoldable pub place_entries :
    Bytes → Bytes → Bytes → List (Bytes × Bytes) → List DirEntry → Exec (Unit {0})
unfolding place_found dir_of
place_entries ns name root m [] = pure tt
place_entries ns name root m (e ∷ es) = do
  found ← attempt (get_file e.file_id)
  place_found ns name e (dir_of root m e.path) found
  place_entries ns name root m es

-- the name of the directory, unless the manifest gives it
unfoldable pub dir_name : DirManifest → Bytes → Bytes
dir_name m id = if is_empty m.name then bytes "dir_" ++ take 8 id else m.name

-- the row of the directory itself
abbrev pub root_row : Bytes → DirManifest → Bytes → ℕ → FileMetadata
root_row ns m id now = dir_row id (dir_name m id) (slash ∷ []) ns [] now

-- SubmitDir, once the manifest has passed
unfoldable pub make_tree : Bytes → DirManifest → Exec FileMetadata
unfolding make_dirs place_entries dir_paths dir_row dir_name
make_tree ns m = do
  id ← new_id
  now ← gets (λ w. w.now)
  put_file (root_row ns m id now)
  dirs ← make_dirs ns id now (sort_by bytes_leb (dir_paths m.entries [])) (([], id) ∷ [])
  place_entries ns (dir_name m id) id dirs m.entries
  pure (root_row ns m id now)

-- SubmitDir
unfoldable pub submit_dir : Bytes → DirManifest → Exec FileMetadata
unfolding validate_dir_manifest make_tree
submit_dir ns m = do validate_dir_manifest ns m; make_tree ns m
