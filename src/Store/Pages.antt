-- ===== src/Store/Pages.antt =====
-- internal/adapters/metadata/sqlite.go: the listings in pages, and GetNamespaceUsage.
pub mod Cover
use fileupload.Store.{by_name}
use fileupload.Meta.Files.{is_live, children_of}
use fileupload.Domain.{FileMetadata}
use fileupload.Meta.Files.Pages.{root_of, page_rows, matching, named_like, page_order}
use fileupload.World.{pure, gets, World, backend_call, Exec, ◌>>=◌, ◌>>◌}
use fileupload.Base.{sum_of, not, ◌&&◌, ◌==◌, sort_by, length, select, ℤ, Bool, ℕ, List, Bytes}

-- NamespaceUsage
pub record NamespaceUsage : Type 0 where
  pub file_count : ℕ
  pub total_size : ℕ

-- the rows of one page, and the number of all rows
unfoldable pub run_page :
    (World → List FileMetadata) → ℤ → ℤ → Bytes → Bytes → Exec (List FileMetadata × ℕ)
unfolding page_order page_rows
run_page rows page per_page sort order = do
  backend_call
  total ← gets (λ w. length (rows w))
  backend_call
  found ← gets (λ w. page_rows page per_page (sort_by (page_order sort order) (rows w)))
  pure (found, total)

module _ (like : Bytes → Bytes → Bool) where
  -- ListChildrenPage
  unfoldable pub list_children_page :
      Bytes → Bytes → Bytes → ℤ → ℤ → Bytes → Bytes → Exec (List FileMetadata × ℕ)
  unfolding run_page matching
  list_children_page parent text file_type page per_page sort order =
      run_page (λ w. matching like text file_type (children_of parent w.db.files)) page per_page
        sort order

  -- ListRootPage
  unfoldable pub list_root_page :
      Bytes → Bytes → Bytes → ℤ → ℤ → Bytes → Bytes → Exec (List FileMetadata × ℕ)
  unfolding run_page matching root_of
  list_root_page ns text file_type page per_page sort order =
      run_page (λ w. matching like text file_type (root_of ns w.db.files)) page per_page sort order

  -- ListChildren with a text
  unfoldable pub search_children : Bytes → Bytes → Exec (List FileMetadata)
  unfolding named_like
  search_children parent text = do
    backend_call
    gets (λ w. sort_by by_name (named_like like text (children_of parent w.db.files)))

  -- ListRoot
  unfoldable pub list_root : Bytes → Bytes → Exec (List FileMetadata)
  unfolding named_like root_of
  list_root ns text = do
    backend_call
    gets (λ w. sort_by by_name (named_like like text (root_of ns w.db.files)))

-- GetNamespaceUsage
unfoldable pub get_namespace_usage : Bytes → Exec NamespaceUsage
get_namespace_usage ns = do
  backend_call
  fs ← gets (λ w. select (λ f. f.namespace == ns && (not f.is_dir && is_live f)) w.db.files)
  pure (record { file_count = length fs; total_size = sum_of (λ f. f.size) fs })
