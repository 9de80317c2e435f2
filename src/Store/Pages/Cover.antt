-- ===== src/Store/Pages/Cover.antt =====
-- The pages of a listing hold all of its rows.
use fileupload.Meta.Files.{children_of}
use fileupload.Upload.Isolation.{called}
use fileupload.Upload.Delete.LastReference.{Answers}
use fileupload.Domain.{ok, FileMetadata}
use fileupload.World.{result, World}
use fileupload.Store.Pages.{list_children_page, run_page}
use fileupload.Meta.Files.Pages.{matching, page_order, limit_rows, page_rows, page_offset}
use fileupload.Base.{
  Bool, sort_by, length, refl, [], zero, ap, ◌∷◌, ◌∙◌, suc, ◌%◌, ◌*◌, ◌/◌, ◌+◌, arith, pos, ◌*ℤ◌,
  ◌≡◌, ◌-ℤ◌, take, drop, get_elem?, ◌<◌, ℕ, List, Bytes,
}

pub get_elem?-drop {ℓ} :
    {A : Type ℓ} (n k : ℕ) (xs : List A) → get_elem? (drop n xs) k ≡ get_elem? xs (n + k)
get_elem?-drop zero k xs = ap (get_elem? xs) (let e : k ≡ 0 + k = omega arith in e)
get_elem?-drop (suc n) k [] = refl
get_elem?-drop (suc n) k (x ∷ xs) =
    get_elem?-drop n k xs
    ∙ ap (get_elem? (x ∷ xs)) (let e : suc (n + k) ≡ suc n + k = omega arith in e)

pub get_elem?-take {ℓ} :
    {A : Type ℓ} (n k : ℕ) (xs : List A) → k < n → get_elem? (take n xs) k ≡ get_elem? xs k
get_elem?-take zero k xs h = absurd (omega arith)
get_elem?-take (suc n) k [] h = refl
get_elem?-take (suc n) zero (x ∷ xs) h = refl
get_elem?-take (suc n) (suc k) (x ∷ xs) h = get_elem?-take n k xs (omega arith)

page_offset-pos : (q per : ℕ) → page_offset (pos (q + 1)) (pos per) ≡ q * per
unfolding page_offset ◌-ℤ◌ ◌*ℤ◌
page_offset-pos q per = let e : pos (q + 1) -ℤ pos 1 ≡ pos q = ground arith in rw e (grind arith)

page_rows-index {ℓ} :
    {A : Type ℓ} (i per : ℕ) (xs : List A)
    → 0 < per
    → get_elem? (page_rows (pos (i / per + 1)) (pos per) xs) (i % per) ≡ get_elem? xs i
unfolding page_rows limit_rows
page_rows-index i per xs h =
    get_elem?-take per (i % per) (drop (page_offset (pos (i / per + 1)) (pos per)) xs) (grind arith)
    ∙ get_elem?-drop (page_offset (pos (i / per + 1)) (pos per)) (i % per) xs
    ∙ ap (get_elem? xs)
        (ap (λ (n : ℕ). n + i % per) (page_offset-pos (i / per) per) ∙ (grind arith))

run_page-index :
    (rows : World → List FileMetadata) (sort order : Bytes) (i per_page : ℕ) (w : World)
    → Answers w
    → 0 < per_page
    → rows (called w) ≡ rows w
    → rows (called (called w)) ≡ rows w
    → (page : List FileMetadata) × (result
          (run_page rows (pos (i / per_page + 1)) (pos per_page) sort order)
          w
        ≡ ok (page, length (rows w)))
      × (get_elem? page (i % per_page) ≡ get_elem? (sort_by (page_order sort order) (rows w)) i)
unfolding run_page
run_page-index rows sort order i per w up h same same' =
    let all = sort_by (page_order sort order) (rows w) in
    (
      page_rows (pos (i / per + 1)) (pos per) all,
      ground (arith, up w.calls, up (w.calls + 1), same, same'),
      page_rows-index i per all h,
    )

-- Where no backend call fails, ListChildrenPage returns on page i / per_page + 1 of a directory, at place
-- i % per_page, the i-th of all the matching children in the requested order, for any index i and any size
-- of the pages above 0; past the end there is nothing there. The total that comes with each page is the
-- number of all matching children.
pub list_children_page-index :
    (like : Bytes → Bytes → Bool) (parent text file_type sort order : Bytes) (i per_page : ℕ)
    (w : World)
    → Answers w
    → 0 < per_page
    → let rows = matching like text file_type (children_of parent w.db.files) in
      (page : List FileMetadata) × (result
          (list_children_page like parent text file_type
            (pos (i / per_page + 1))
            (pos per_page)
            sort
            order)
          w
        ≡ ok (page, length rows))
      × (get_elem? page (i % per_page) ≡ get_elem? (sort_by (page_order sort order) rows) i)
unfolding list_children_page
list_children_page-index like parent text file_type sort order i per_page w up h =
    run_page-index (λ v. matching like text file_type (children_of parent v.db.files)) sort order i
      per_page w up h refl refl
