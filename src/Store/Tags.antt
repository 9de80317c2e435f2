-- ===== src/Store/Tags.antt =====
-- internal/adapters/metadata/sqlite.go: SetFileTags, GetFileTags and DeleteFileTags. The time of a tag is
-- left out.
use fileupload.World.{gets, modify_db, backend_call, TagRow, Exec, ◌>>◌}
use fileupload.Base.{
  [], ◌++◌, map, true, ◌&&◌, bytes_leb, ◌||◌, sort_by, is_empty, ◌==◌, false, not, if◌then◌else◌,
  select, ◌∷◌, Bool, List, Bytes,
}

unfoldable pub has_tag : Bytes → Bytes → List TagRow → Bool
has_tag id tag [] = false
has_tag id tag (r ∷ rs) = if r.file_id == id && r.tag == tag then true else has_tag id tag rs

-- DELETE FROM file_tags WHERE file_id = ?
unfoldable pub drop_tags : Bytes → List TagRow → List TagRow
drop_tags id = select (λ r. not (r.file_id == id))

-- INSERT OR IGNORE INTO file_tags, for each tag that is not empty
unfoldable pub add_tags : Bytes → List Bytes → List TagRow → List TagRow
unfolding has_tag
add_tags id [] rs = rs
add_tags id (t ∷ ts) rs =
    add_tags id ts
      (if is_empty t || has_tag id t rs then rs else rs ++ record { file_id = id; tag = t } ∷ [])

-- a transaction, which is one call
unfoldable pub set_file_tags : Bytes → List Bytes → Exec (Unit {0})
unfolding drop_tags add_tags
set_file_tags id ts = do
  backend_call
  modify_db (λ d. record d { tags = add_tags id ts (drop_tags id d.tags) })

-- SELECT tag FROM file_tags WHERE file_id = ? ORDER BY tag
unfoldable pub get_file_tags : Bytes → Exec (List Bytes)
get_file_tags id = do
  backend_call
  gets (λ w. sort_by bytes_leb (map (λ r. r.tag) (select (λ r. r.file_id == id) w.db.tags)))

unfoldable pub delete_file_tags : Bytes → Exec (Unit {0})
unfolding drop_tags
delete_file_tags id = do backend_call; modify_db (λ d. record d { tags = drop_tags id d.tags })
