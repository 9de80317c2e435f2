-- ===== src/Download/Lookup/Batched.antt =====
-- The batched lookup against a lookup of each identifier.
use fileupload.Upload.Isolation.{called}
use fileupload.Meta.Files.Laws.{live_file_absent, IsKeyed}
use fileupload.Meta.Files.{live_file}
use fileupload.Upload.Delete.LastReference.{Answers}
use fileupload.Domain.{ok, Result, FileMetadata}
use fileupload.Upload.Trash.{item_by_id, is_seen}
use fileupload.Download.Lookup.{
  all_batches, unique_non_empty, live_files_in, unique_from, get_files_by_ids, batches, query_all,
}
use fileupload.World.{result, World}
use fileupload.Base.{
  inr, eq→path, ◌∙◌, refl, inl, some, zero, ap, none, arith, ◌==◌, [], Bool-cases, if◌then◌else◌,
  suc, ◌-◌, ◌∷◌, ◌≡◌, ◌++◌, ◌||◌, is_empty, take, false, drop, ◌≤◌, length, Bool, ℕ, List, Bytes,
}

any_batch : Bytes → List (List Bytes) → Bool
any_batch id [] = false
any_batch id (b ∷ bs) = is_seen id b || any_batch id bs

seen-take-drop :
    (id : Bytes) (n : ℕ) (vs : List Bytes)
    → (is_seen id (take n vs) || is_seen id (drop n vs)) ≡ is_seen id vs
unfolding is_seen
seen-take-drop id zero vs = refl
seen-take-drop id (suc n) [] = refl
seen-take-drop id (suc n) (v ∷ vs) = ground (arith, seen-take-drop id n vs)

length-drop : (n : ℕ) (vs : List Bytes) → length (drop n vs) ≡ length vs - n
length-drop zero vs = omega arith
length-drop (suc n) [] = omega arith
length-drop (suc n) (v ∷ vs) = omega (arith, length-drop n vs)

-- enough batches hold every value
any_batch-batches :
    (id : Bytes) (fuel : ℕ) (vs : List Bytes)
    → length vs ≤ fuel
    → any_batch id (batches fuel vs) ≡ is_seen id vs
unfolding any_batch batches
any_batch-batches id zero [] h = unfold is_seen in refl
any_batch-batches id (suc fuel) [] h = unfold is_seen in refl
any_batch-batches id zero (v ∷ vs) h = absurd (omega arith)
any_batch-batches id (suc fuel) (v ∷ vs) h =
    let less : length (drop 500 (v ∷ vs)) ≤ fuel = omega (arith, length-drop 500 (v ∷ vs)) in
    ap (λ b. is_seen id (take 500 (v ∷ vs)) || b)
      (any_batch-batches id fuel (drop 500 (v ∷ vs)) less)
    ∙ seen-take-drop id 500 (v ∷ vs)

seen-unique_from :
    (id : Bytes) (seen vs : List Bytes)
    → is_empty id ≡ false
    → is_seen id seen ≡ false
    → is_seen id (unique_from seen vs) ≡ is_seen id vs
unfolding is_seen unique_from
seen-unique_from id seen [] h s = refl
seen-unique_from id seen (v ∷ vs) h s = elim (Bool-cases (v == id)) [
  | inl this ↦ let same = eq→path v id this in ground (arith, this, same, h, s)
  | inr other ↦
      ground (arith, other, seen-unique_from id seen vs h, seen-unique_from id (v ∷ seen) vs h)
]

item_by_id-append :
    (id : Bytes) (fs gs : List FileMetadata)
    → item_by_id id (fs ++ gs)
      ≡ elim (item_by_id id gs) [ none ↦ item_by_id id fs | some g ↦ some g ]
unfolding item_by_id
item_by_id-append id [] gs = ground arith
item_by_id-append id (f ∷ fs) gs = ground (arith, item_by_id-append id fs gs)

-- one query answers for the identifiers of its batch
item_by_id-live :
    (id : Bytes) (b : List Bytes) (fs : List FileMetadata)
    → IsKeyed fs
    → item_by_id id (live_files_in b fs) ≡ (if is_seen id b then live_file id fs else none)
unfolding item_by_id live_files_in live_file
item_by_id-live id b [] h = ground arith
item_by_id-live id b (f ∷ fs) h = elim (Bool-cases (f.file_id == id)) [
  | inl this ↦
      let same = eq→path f.file_id id this in
      ground (arith, this, same, live_file_absent f.file_id fs, h.0, item_by_id-live id b fs h.1)
  | inr other ↦ ground (arith, other, item_by_id-live id b fs h.1)
]

-- what the queries of some batches find
record Answered (bs : List (List Bytes)) (w : World) (o : Result (List FileMetadata) × World)
    : Type 0 where
  rows : List FileMetadata
  found : o.0 ≡ ok rows
  each :
      (id : Bytes)
      → item_by_id id rows ≡ (if any_batch id bs then live_file id w.db.files else none)

abbrev query_files : List Bytes → World → List FileMetadata
query_files b w = live_files_in b w.db.files

query_all-Answered :
    (bs : List (List Bytes)) (w : World)
    → Answers w
    → IsKeyed w.db.files
    → Answered bs w (query_all query_files bs w)
unfolding query_all any_batch
query_all-Answered [] w up h = record {
  rows = [];
  found = refl;
  each = λ id. unfold item_by_id in refl;
}
query_all-Answered (b ∷ bs) w up h =
    let rest = query_all-Answered bs (called w) up h in
    record {
      rows = query_files b w ++ rest.rows;
      found = ground (arith, up w.calls, rest.found);
      each = λ id. ground (
        arith,
        item_by_id-append id (query_files b w) rest.rows,
        item_by_id-live id b w.db.files h,
        rest.each id,
      );
    }

-- Where identifiers are unique and no backend call fails, GetFilesByIDs, with its batches of 500
-- distinct identifiers, finds of any identifier that is not empty just what GetFile finds if it was asked
-- for, and nothing if it was not.
pub get_files-get_file :
    (ids : List Bytes) (w : World)
    → Answers w
    → IsKeyed w.db.files
    → (rows : List FileMetadata) × (result (get_files_by_ids ids) w ≡ ok rows)
      × ((id : Bytes)
          → is_empty id ≡ false
          → item_by_id id rows ≡ (if is_seen id ids then live_file id w.db.files else none))
unfolding get_files_by_ids
get_files-get_file ids w up h =
    let us = unique_non_empty ids in
    let r = query_all-Answered (all_batches ids) w up h in
    (
      r.rows,
      r.found,
      λ id named.
          r.each id
          ∙ ap (λ (b : Bool). if b then live_file id w.db.files else none)
              (any_batch-batches id (length us) us (omega arith)
                ∙ (unfold unique_non_empty in
                    seen-unique_from id [] ids named (unfold is_seen in refl))),
    )
