-- ===== src/Meta/Files.antt =====
-- internal/adapters/metadata/sqlite.go: the statements on the table files. The column list of an
-- INSERT leaves deleted_at NULL, and the tags stand in a table of their own.
pub mod Laws
pub mod Pages
use fileupload.Base.{
  ℕ, ◌+◌, Bool, true, false, not, ◌&&◌, Option, none, some, List, [], ◌∷◌, ◌++◌, Bytes, ◌==◌,
  if◌then◌else◌, find?, update_where, select, is_empty,
}
use fileupload.Domain.{FileMetadata}

abbrev pub is_live : FileMetadata → Bool
is_live f = elim f.deleted_at [ none ↦ true | some _ ↦ false ]

-- SELECT ... FROM files WHERE file_id = ? AND deleted_at IS NULL
unfoldable pub live_file : Bytes → List FileMetadata → Option FileMetadata
live_file id = find? (λ f. f.file_id == id && is_live f)

-- the row of an identifier, in the recycle bin or not
unfoldable pub has_id : Bytes → List FileMetadata → Bool
has_id id [] = false
has_id id (f ∷ fs) = if f.file_id == id then true else has_id id fs

-- INSERT INTO files: the primary key refuses a second row of an identifier.
unfoldable pub insert_file : FileMetadata → List FileMetadata → Option (List FileMetadata)
insert_file f fs =
    if has_id f.file_id fs
    then none
    else some (fs ++ record f { tags = []; deleted_at = none } ∷ [])

-- DELETE FROM files WHERE file_id = ?
unfoldable pub delete_rows : Bytes → List FileMetadata → List FileMetadata
delete_rows id = select (λ f. not (f.file_id == id))

-- UPDATE files SET deleted_at = ? WHERE file_id = ? AND deleted_at IS NULL
unfoldable pub set_deleted : Bytes → ℕ → List FileMetadata → List FileMetadata
set_deleted id at =
    update_where (λ f. f.file_id == id && is_live f) (λ f. record f { deleted_at = some at })

-- UPDATE files SET deleted_at = NULL WHERE file_id = ? AND deleted_at IS NOT NULL
unfoldable pub clear_deleted : Bytes → List FileMetadata → List FileMetadata
clear_deleted id =
    update_where (λ f. f.file_id == id && not (is_live f)) (λ f. record f { deleted_at = none })

-- UPDATE files SET name=?, path=? WHERE file_id=?
unfoldable pub rename_rows : Bytes → Bytes → Bytes → List FileMetadata → List FileMetadata
rename_rows id name path =
    update_where (λ f. f.file_id == id) (λ f. record f { name = name; path = path })

-- UPDATE files SET parent_id = ? WHERE file_id = ?; NULL reads back as the empty text
unfoldable pub set_parent : Bytes → Bytes → List FileMetadata → List FileMetadata
set_parent id parent = update_where (λ f. f.file_id == id) (λ f. record f { parent_id = parent })

-- SELECT ... FROM files WHERE parent_id = ? AND deleted_at IS NULL; no row has the parent ''
unfoldable pub children_of : Bytes → List FileMetadata → List FileMetadata
children_of parent =
    select (λ f. f.parent_id == parent && (not (is_empty f.parent_id) && is_live f))

-- SELECT ... FROM files WHERE namespace = ? AND deleted_at IS NOT NULL
unfoldable pub trash_of : Bytes → List FileMetadata → List FileMetadata
trash_of ns = select (λ f. f.namespace == ns && not (is_live f))

-- SELECT COALESCE(SUM(size), 0) FROM files WHERE namespace = ? AND deleted_at IS NULL
unfoldable pub used_bytes : Bytes → List FileMetadata → ℕ
used_bytes ns [] = 0
used_bytes ns (f ∷ fs) = (if f.namespace == ns && is_live f then f.size else 0) + used_bytes ns fs

-- The number of rows of SELECT ... FROM files WHERE sha256 = ?, in the recycle bin or not
unfoldable pub refs : Bytes → List FileMetadata → ℕ
refs sha [] = 0
refs sha (f ∷ fs) = (if f.sha256 == sha then 1 else 0) + refs sha fs

-- whether the row of an identifier stands in the recycle bin
unfoldable pub has_trashed : Bytes → List FileMetadata → Bool
has_trashed id [] = false
has_trashed id (f ∷ fs) = if f.file_id == id && not (is_live f) then true else has_trashed id fs

-- UPDATE files SET parent_id = ?, path = ? WHERE file_id = ?
unfoldable pub set_parent_path : Bytes → Bytes → Bytes → List FileMetadata → List FileMetadata
set_parent_path id parent path =
    update_where (λ f. f.file_id == id) (λ f. record f { parent_id = parent; path = path })
