-- ===== src/Base/Sort.antt =====
-- Sorting by a Boolean order, for `sort.Slice` and `ORDER BY`.
use fileupload.Base.Lists.{length}
use fileupload.Base.Core.{
  ℕ, suc, ◌+◌, ◌≡◌, refl, arith, Bool, true, false, ◌&&◌, ◌||◌, List, [], ◌∷◌,
}
use fileupload.Base.Tests.{if◌then◌else◌, ltb, eqb}
use fileupload.Base.Strings.{Bytes}

module _ {ℓ} {A : Type ℓ} (le : A → A → Bool) where
  unfoldable pub insert_by : A → List A → List A
  insert_by x [] = x ∷ []
  insert_by x (y ∷ ys) = let rest = insert_by x ys in if le x y then x ∷ y ∷ ys else y ∷ rest

  unfoldable pub sort_by : List A → List A
  unfolding insert_by
  sort_by [] = []
  sort_by (x ∷ xs) = insert_by x (sort_by xs)

-- the order of bytes, as memcmp has it
unfoldable pub bytes_leb : Bytes → Bytes → Bool
bytes_leb [] ys = true
bytes_leb (x ∷ xs) [] = false
bytes_leb (x ∷ xs) (y ∷ ys) = ltb x y || (eqb x y && bytes_leb xs ys)

module _ {ℓ} {A : Type ℓ} (le : A → A → Bool) where
  length-insert_by : (x : A) (xs : List A) → length (insert_by le x xs) ≡ suc (length xs)
  unfolding insert_by
  length-insert_by x [] = refl
  length-insert_by x (y ∷ ys) = ground (arith, length-insert_by x ys)

  pub length-sort_by : (xs : List A) → length (sort_by le xs) ≡ length xs
  unfolding sort_by
  length-sort_by [] = refl
  length-sort_by (x ∷ xs) = omega (arith, length-insert_by x (sort_by le xs), length-sort_by xs)

-- f summed over a list
abbrev pub sum_of {ℓ} : {A : Type ℓ} → (A → ℕ) → List A → ℕ
sum_of f [] = 0
sum_of f (x ∷ xs) = f x + sum_of f xs

-- A sum over the elements does not see their order.
module _ {ℓ} {A : Type ℓ} (le : A → A → Bool) (f : A → ℕ) where
  sum_of-insert_by : (x : A) (xs : List A) → sum_of f (insert_by le x xs) ≡ f x + sum_of f xs
  unfolding insert_by
  sum_of-insert_by x [] = refl
  sum_of-insert_by x (y ∷ ys) = ground (arith, sum_of-insert_by x ys)

  pub sum_of-sort_by : (xs : List A) → sum_of f (sort_by le xs) ≡ sum_of f xs
  unfolding sort_by
  sum_of-sort_by [] = refl
  sum_of-sort_by (x ∷ xs) = omega (arith, sum_of-insert_by x (sort_by le xs), sum_of-sort_by xs)
