-- ===== src/Download/Directory.antt =====
-- internal/domain/download.go: the manifest of a directory (GetDirManifest, walkDir,
-- computeTreeSHA256) and its size (GetDirTotalSize). The recursions have fuel, and running out of it is
-- the error out_of_fuel. An int64 sum is its bit pattern, a number below 2 ^ 64.
pub mod TotalSize
pub mod Archive
use fileupload.Storage.Paths.{slash}
use fileupload.Upload.Append.{decimal}
use fileupload.Store.{list_children, get_file}
use fileupload.Domain.{forbidden, invalid_argument, out_of_fuel, not_found, FileMetadata}
use fileupload.World.{require, pure, raise, Exec, ◌>>=◌, ◌>>◌}
use fileupload.Base.{
  none, zero, ◌==◌, some, ◌||◌, suc, ◌^◌, is_empty, if◌then◌else◌, ◌%◌, sort_by, bytes_leb, [],
  Bool, ◌++◌, ◌∷◌, Option, ◌+◌, ℕ, List, Bytes,
}

-- DirEntryInfo
pub record DirEntryInfo : Type 0 where
  pub path : Bytes
  pub size : ℕ
  pub sha256 : Bytes
  pub file_id : Bytes

-- DirWalker
pub record DirWalker : Type 0 where
  pub dir_id : Bytes
  pub name : Bytes
  pub entries : List DirEntryInfo
  pub tree_sha256 : Bytes
  pub total_size : ℕ

-- int64 addition
abbrev pub add64 : ℕ → ℕ → ℕ
add64 a b = (a + b) % 2 ^ 64

-- the path of a child: its own, unless it has none
unfoldable pub rel_path : Bytes → FileMetadata → Bytes
rel_path prefix c =
    if is_empty c.path || c.path == slash ∷ []
    then (if is_empty prefix then c.name else prefix ++ slash ∷ c.name)
    else c.path

abbrev pub entry_of : Bytes → FileMetadata → DirEntryInfo
entry_of prefix c = record {
  path = rel_path prefix c;
  size = c.size;
  sha256 = c.sha256;
  file_id = c.file_id;
}

-- the loop of walkDir over the children
unfoldable pub walk_children :
    (Bytes → Bytes → Exec (List DirEntryInfo))
    → Bytes
    → List FileMetadata
    → Exec (List DirEntryInfo)
walk_children go prefix [] = pure []
walk_children go prefix (c ∷ cs) = do
  es ← (if c.is_dir then go c.file_id (rel_path prefix c) else pure (entry_of prefix c ∷ []))
  rest ← walk_children go prefix cs
  pure (es ++ rest)

-- walkDir, with what it appends to the entries
unfoldable pub walk_dir : ℕ → Bytes → Bytes → Exec (List DirEntryInfo)
unfolding walk_children
walk_dir zero id prefix = raise out_of_fuel
walk_dir (suc fuel) id prefix = do cs ← list_children id; walk_children (walk_dir fuel) prefix cs

-- fmt.Sprintf("%s|%d|%s\n", e.Path, e.Size, e.SHA256)
unfoldable pub entry_line : DirEntryInfo → Bytes
entry_line e = e.path ++ b'|' ∷ (decimal e.size ++ b'|' ∷ (e.sha256 ++ b'\n' ∷ []))

unfoldable pub entry_lines : List DirEntryInfo → Bytes
unfolding entry_line
entry_lines [] = []
entry_lines (e ∷ es) = entry_line e ++ entry_lines es

-- for _, e := range entries { totalSize += e.Size }
unfoldable pub add_sizes : ℕ → List DirEntryInfo → ℕ
add_sizes total [] = total
add_sizes total (e ∷ es) = add_sizes (add64 total e.size) es

unfoldable pub by_path : DirEntryInfo → DirEntryInfo → Bool
by_path d e = bytes_leb d.path e.path

module _ (sum_hex : Bytes → Bytes) where
  -- computeTreeSHA256
  unfoldable pub tree_sha : List DirEntryInfo → Bytes
  unfolding entry_lines
  tree_sha es = sum_hex (entry_lines es)

  unfoldable pub walker_of : FileMetadata → Bytes → List DirEntryInfo → DirWalker
  unfolding tree_sha add_sizes by_path
  walker_of dir id es =
      let sorted = sort_by by_path es in
      record {
        dir_id = id;
        name = dir.name;
        entries = sorted;
        tree_sha256 = tree_sha sorted;
        total_size = add_sizes 0 sorted;
      }

  unfoldable pub manifest_of : ℕ → Bytes → Bytes → Option FileMetadata → Exec DirWalker
  unfolding walk_dir walker_of
  manifest_of fuel id ns none = raise not_found
  manifest_of fuel id ns (some dir) = do
    require dir.is_dir invalid_argument
    require (dir.namespace == ns) forbidden
    es ← walk_dir fuel id []
    pure (walker_of dir id es)

  -- GetDirManifest
  unfoldable pub get_dir_manifest : ℕ → Bytes → Bytes → Exec DirWalker
  unfolding manifest_of
  get_dir_manifest fuel id ns = do dir ← get_file id; manifest_of fuel id ns dir

-- the loop of GetDirTotalSize
unfoldable pub add_children : (Bytes → Exec ℕ) → ℕ → List FileMetadata → Exec ℕ
add_children go total [] = pure total
add_children go total (c ∷ cs) = do
  n ← (if c.is_dir then go c.file_id else pure c.size)
  add_children go (add64 total n) cs

-- GetDirTotalSize
unfoldable pub get_dir_total_size : ℕ → Bytes → Exec ℕ
unfolding add_children
get_dir_total_size zero id = raise out_of_fuel
get_dir_total_size (suc fuel) id = do
  cs ← list_children id
  add_children (get_dir_total_size fuel) 0 cs
