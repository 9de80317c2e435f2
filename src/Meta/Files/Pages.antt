-- ===== src/Meta/Files/Pages.antt =====
-- internal/adapters/metadata/sqlite.go: the queries of ListChildrenPage, ListRootPage and ListRoot. SQL's
-- LIKE is a parameter.
use fileupload.Meta.Files.{is_live}
use fileupload.Domain.{FileMetadata}
use fileupload.Base.{
  [], ◌++◌, true, ◌∷◌, ◌*ℤ◌, ◌||◌, negsuc, not, is_empty, bytes, leb, ◌-ℤ◌, take, bytes_leb, select,
  pos_part, pos, ◌&&◌, ◌==◌, drop, if◌then◌else◌, ℤ, Bool, ℕ, List, Bytes,
}

-- sqliteFileTypeClause
unfoldable pub has_type : Bytes → FileMetadata → Bool
has_type file_type f =
    if file_type == bytes "dir"
    then f.is_dir
    else if file_type == bytes "file"
    then not f.is_dir
    else true

-- the columns to sort by
pub data Column : Type 0 where
  name_column size_column created_column : Column

-- safeSort
unfoldable pub column_of : Bytes → Column
column_of name =
    if name == bytes "size"
    then size_column
    else if name == bytes "created_at"
    then created_column
    else name_column

unfoldable pub column_leb : Column → FileMetadata → FileMetadata → Bool
column_leb name_column f g = bytes_leb f.name g.name
column_leb size_column f g = leb f.size g.size
column_leb created_column f g = leb f.created_at g.created_at

-- ORDER BY column order, file_id ASC
unfoldable pub page_order : Bytes → Bytes → FileMetadata → FileMetadata → Bool
unfolding column_leb column_of
page_order sort_by order f g =
    let column = column_of sort_by in
    let le = column_leb column f g in
    let ge = column_leb column g f in
    if le && ge then bytes_leb f.file_id g.file_id else if order == bytes "desc" then ge else le

-- SELECT ... FROM files WHERE (parent_id IS NULL OR parent_id='') AND namespace=? AND deleted_at IS NULL
unfoldable pub root_of : Bytes → List FileMetadata → List FileMetadata
root_of ns = select (λ f. is_empty f.parent_id && (f.namespace == ns && is_live f))

module _ (like : Bytes → Bytes → Bool) where
  -- AND name LIKE '%text%', unless the text is empty
  unfoldable pub named_like : Bytes → List FileMetadata → List FileMetadata
  named_like text = select (λ f. is_empty text || like (b'%' ∷ (text ++ b'%' ∷ [])) f.name)

  unfoldable pub matching : Bytes → Bytes → List FileMetadata → List FileMetadata
  unfolding named_like has_type
  matching text file_type fs = select (has_type file_type) (named_like text fs)

-- offset := (page - 1) * perPage, at least 0
unfoldable pub page_offset : ℤ → ℤ → ℕ
page_offset page per_page = pos_part ((page -ℤ pos 1) *ℤ per_page)

-- LIMIT ? OFFSET ?; a negative limit is none
unfoldable pub limit_rows {ℓ} : {A : Type ℓ} → ℤ → List A → List A
limit_rows (pos n) xs = take n xs
limit_rows (negsuc n) xs = xs

unfoldable pub page_rows {ℓ} : {A : Type ℓ} → ℤ → ℤ → List A → List A
unfolding page_offset limit_rows
page_rows page per_page xs = limit_rows per_page (drop (page_offset page per_page) xs)
