-- ===== src/Upload/Chunks/Accept.antt =====
-- internal/domain/upload.go: what validateUploadedChunks means for the byte stream.
use fileupload.Meta.Sessions.{total_size}
use fileupload.Domain.{ok, ChunkInfo}
use fileupload.Base.{
  length-sort_by, sum_of-sort_by, zero, refl, [], sort_by, ◌-◌, ◌∷◌, ◌↔◌, suc, pos, sum_of, arith,
  ◌≡◌, map, ◌≤◌, true, ◌+◌, length, ◌<◌, ℕ, List,
}
use fileupload.Upload.Chunks.{
  by_index, validate_uploaded_chunks, has_length, expected_count, check_chunks, two63,
}
use fileupload.Upload.Chunks.Plan.{
  cut-accepted, ceil-Fills, cut-Fills, accepted-cut, Fills-ceil, cut, Fills, shape,
}

-- the test of the count is the one on the pieces
count-Fills :
    (cs : List ChunkInfo) (len size : ℕ)
    → 0 < len
    → 0 < size
    → 0 < length cs
    → len < two63
    → size < two63
    → has_length cs (expected_count len size) ≡ true
    → Fills (length cs) len size
unfolding expected_count
count-Fills cs len size p q n l s h = ground (arith, ceil-Fills len size q p)

Fills-count :
    (cs : List ChunkInfo) (len size : ℕ)
    → 0 < len
    → 0 < size
    → len + size ≤ two63
    → Fills (length cs) len size
    → has_length cs (expected_count len size) ≡ true
unfolding expected_count
Fills-count cs len size p q o f = ground (arith, Fills-ceil (length cs) len size q p f)

check_chunks-cut :
    (cs : List ChunkInfo) (len size : ℕ)
    → 0 < len
    → 0 < size
    → 0 < length cs
    → len < two63
    → size < two63
    → check_chunks cs len size true ≡ ok tt
    → map shape cs ≡ cut len 0 len size
check_chunks-cut cs len size p q n l s h =
    ground
      (arith, count-Fills cs len size p q n l s, accepted-cut cs len 0 (length cs) len size len)

cut-check_chunks :
    (cs : List ChunkInfo) (len size : ℕ)
    → 0 < len
    → 0 < size
    → len + size ≤ two63
    → map shape cs ≡ cut len 0 len size
    → check_chunks cs len size true ≡ ok tt
cut-check_chunks cs len size p q o e = ground (
  arith,
  cut-Fills cs len 0 size len,
  Fills-count cs len size p q o,
  cut-accepted cs len 0 (length cs) len size len,
)

cut_total :
    (cs : List ChunkInfo) (fuel i rest size : ℕ)
    → rest ≤ fuel
    → 0 < size
    → map shape cs ≡ cut fuel i rest size
    → total_size cs ≡ rest
unfolding total_size
cut_total [] zero i rest size f q e = omega arith
cut_total (c ∷ cs) zero i rest size f q e = ground arith
cut_total [] (suc fuel) i rest size f q e = ground arith
cut_total (c ∷ []) (suc zero) i rest size f q e = ground arith
cut_total (c ∷ []) (suc (suc fuel)) i rest size f q e = ground arith
cut_total (c ∷ d ∷ cs) (suc fuel) i rest size f q e =
    ground (arith, cut_total (d ∷ cs) fuel (i + 1) (rest - size) size)

sort_nil : sort_by by_index [] ≡ []
unfolding sort_by
sort_nil = refl

total_size-sum : (cs : List ChunkInfo) → total_size cs ≡ sum_of (λ c. c.size) cs
unfolding total_size
total_size-sum [] = refl
total_size-sum (c ∷ cs) = omega (arith, total_size-sum cs)

-- An uncompressed upload passes exactly if its chunks, in the order of their indexes, are the
-- pieces of the declared length: nothing is missing, doubled, out of place or of another size. The
-- length and the chunk size are positive, and their sum fits into an int64.
pub validate_iff :
    (cs : List ChunkInfo) (len size : ℕ)
    → 0 < len
    → 0 < size
    → len + size ≤ two63
    → (validate_uploaded_chunks cs (pos len) (pos size) true ≡ ok tt)
      ↔ (map shape (sort_by by_index cs) ≡ cut len 0 len size)
unfolding validate_uploaded_chunks
validate_iff cs zero size p q o = absurd (omega arith)
validate_iff cs (suc len) zero p q o = absurd (omega arith)
validate_iff [] (suc len) (suc size) p q o = (λ h. cc, λ e. ground (arith, sort_nil))
validate_iff (c ∷ cs) (suc len) (suc size) p q o = (
  check_chunks-cut (sort_by by_index (c ∷ cs)) (suc len) (suc size) p q
      (omega (arith, length-sort_by {0} by_index (c ∷ cs))) (omega arith) (omega arith),
  cut-check_chunks (sort_by by_index (c ∷ cs)) (suc len) (suc size) p q o,
)

-- The chunks of an uncompressed upload that pass hold exactly the declared number of bytes, for any
-- length and chunk size of an int64.
validate_total :
    (cs : List ChunkInfo) (len size : ℕ)
    → len < two63
    → size < two63
    → validate_uploaded_chunks cs (pos len) (pos size) true ≡ ok tt
    → total_size cs ≡ len
unfolding validate_uploaded_chunks
validate_total cs len zero l s h = ground arith
validate_total [] zero (suc size) l s h = unfold total_size in refl
validate_total (c ∷ cs) zero (suc size) l s h = ground arith
validate_total [] (suc len) (suc size) l s h = ground arith
validate_total (c ∷ cs) (suc len) (suc size) l s h = omega (
  arith,
  total_size-sum (c ∷ cs),
  total_size-sum (sort_by by_index (c ∷ cs)),
  sum_of-sort_by {0} by_index (λ c. c.size) (c ∷ cs),
  cut_total (sort_by by_index (c ∷ cs)) (suc len) 0 (suc len) (suc size) (omega arith) (omega arith)
      (check_chunks-cut (sort_by by_index (c ∷ cs)) (suc len) (suc size) (omega arith) (omega arith)
        (omega (arith, length-sort_by {0} by_index (c ∷ cs))) l s h),
)
