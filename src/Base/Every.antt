-- ===== src/Base/Every.antt =====
-- A predicate on every element of a list.
use std.Path.{subst}
use fileupload.Base.Core.{map, inl, inr, sym, Bool, true, false, List, [], ◌∷◌, ◌≡◌}
use fileupload.Base.Tests.{if◌then◌else◌, Bool-cases}
use fileupload.Base.Sort.{insert_by, sort_by}
use fileupload.Base.Lists.{select}

abbrev pub All {ℓ κ} : {A : Type ℓ} → (A → Type κ) → List A → Type κ
All P [] = Unit
All P (x ∷ xs) = P x × All P xs

module _ {ℓ κ} {A : Type ℓ} where
  pub All-weaken : (P Q : A → Type κ) → ((x : A) → P x → Q x) → (xs : List A) → All P xs → All Q xs
  All-weaken P Q f [] h = tt
  All-weaken P Q f (x ∷ xs) h = (f x h.0, All-weaken P Q f xs h.1)

module _ {ℓ κ} {A : Type ℓ} (P : A → Type κ) (le : A → A → Bool) where
  All-insert_by : (x : A) (xs : List A) → P x → All P xs → All P (insert_by le x xs)
  unfolding insert_by
  All-insert_by x [] p h = (p, tt)
  All-insert_by x (y ∷ ys) p h =
      elim (le x y) as (λ b. All P (if b then x ∷ y ∷ ys else y ∷ insert_by le x ys)) [
        | true ↦ (p, h)
        | false ↦ (h.0, All-insert_by x ys p h.1)
      ]

  pub All-sort_by : (xs : List A) → All P xs → All P (sort_by le xs)
  unfolding sort_by
  All-sort_by [] h = tt
  All-sort_by (x ∷ xs) h = All-insert_by x (sort_by le xs) h.0 (All-sort_by xs h.1)

  All-inserted : (x : A) (xs : List A) → All P (insert_by le x xs) → P x × All P xs
  unfolding insert_by
  All-inserted x [] h = h
  All-inserted x (y ∷ ys) h =
      elim (le x y)
          as (λ b. All P (if b then x ∷ y ∷ ys else y ∷ insert_by le x ys) → P x × All P (y ∷ ys)) [
            | true ↦ λ k. k
            | false ↦ λ k. let r = All-inserted x ys k.1 in (r.0, (k.0, r.1))
          ]
        h

  -- sorting loses no element
  pub All-sorted : (xs : List A) → All P (sort_by le xs) → All P xs
  unfolding sort_by
  All-sorted [] h = tt
  All-sorted (x ∷ xs) h = let r = All-inserted x (sort_by le xs) h in (r.0, All-sorted xs r.1)

module _ {ℓ κ} {A : Type ℓ} (P : A → Type κ) (p : A → Bool) (x : A) (xs : List A) where
  pub All-select_head : p x ≡ true → All P (select p (x ∷ xs)) → P x
  All-select_head e h =
      let r : All P (if true then x ∷ select p xs else select p xs) =
        subst (λ b. All P (if b then x ∷ select p xs else select p xs)) e h in
      r.0

  pub All-select_tail : All P (select p (x ∷ xs)) → All P (select p xs)
  All-select_tail h =
      elim (p x)
          as (λ b. All P (if b then x ∷ select p xs else select p xs) → All P (select p xs)) [
            | true ↦ λ r. r.1
            | false ↦ λ r. r
          ]
        h

  pub All-select_cons : (p x ≡ true → P x) → All P (select p xs) → All P (select p (x ∷ xs))
  All-select_cons f h = elim (Bool-cases (p x)) [
    | inl e ↦ subst (λ b. All P (if b then x ∷ select p xs else select p xs)) (sym e) (f e, h)
    | inr e ↦ subst (λ b. All P (if b then x ∷ select p xs else select p xs)) (sym e) h
  ]

module _ {ℓ} {A : Type ℓ} where
  -- what is selected passes the test
  pub All-selected : (p : A → Bool) (xs : List A) → All (λ x. p x ≡ true) (select p xs)
  All-selected p [] = tt
  All-selected p (x ∷ xs) = All-select_cons (λ y. p y ≡ true) p x xs (λ e. e) (All-selected p xs)

module _ {ℓ κ} {A : Type ℓ} where
  pub All-select : (P : A → Type κ) (p : A → Bool) (xs : List A) → All P xs → All P (select p xs)
  All-select P p [] h = tt
  All-select P p (x ∷ xs) h = All-select_cons P p x xs (λ _. h.0) (All-select P p xs h.1)

  pub All-map :
      {B : Type ℓ} (P : B → Type κ) (f : A → B) (xs : List A)
      → All (λ x. P (f x)) xs
      → All P (map f xs)
  All-map P f [] h = tt
  All-map P f (x ∷ xs) h = (h.0, All-map P f xs h.1)
