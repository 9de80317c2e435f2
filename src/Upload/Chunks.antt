-- ===== src/Upload/Chunks.antt =====
-- internal/domain/upload.go: validateUploadedChunks, the check before a finalize. Indexes and sizes
-- of stored chunks are not negative: AppendChunk refuses a negative index, and a size is a number
-- of bytes that were written.
pub mod Plan
pub mod Accept
use fileupload.Base.{
  [], zero, ◌*◌, ◌&&◌, sort_by, ◌∷◌, sub_ℕ, ◌/◌, ltb, false, suc, ◌%◌, length, ◌-◌, not, eqb, ◌+◌,
  negsuc, pos, if◌then◌else◌, ℤ, leb, true, Bool, ℕ, List,
}
use fileupload.Domain.{ok, invalid_argument, upload_incomplete, err, Result, ChunkInfo}

abbrev pub two63 : ℕ
two63 = 9_223_372_036_854_775_808

abbrev pub two64 : ℕ
two64 = 18_446_744_073_709_551_616

abbrev pub by_index : ChunkInfo → ChunkInfo → Bool
by_index a b = leb a.index b.index

-- chunk.Index != index || chunk.Size <= 0 || chunk.Size > chunkSize, for no chunk
unfoldable pub in_sequence : ℕ → ℕ → List ChunkInfo → Bool
in_sequence i size [] = true
in_sequence i size (c ∷ cs) =
    (eqb c.index i && (ltb 0 c.size && leb c.size size)) && in_sequence (i + 1) size cs

-- int((uploadLength + chunkSize - 1) / chunkSize): the sum wraps around in an int64, and a division
-- of a negative number is truncated towards 0.
unfoldable pub expected_count : ℕ → ℕ → ℤ
expected_count len size =
    let s = (len + size - 1) % two64 in
    if ltb s two63 then pos (s / size) else sub_ℕ 0 ((two64 - s) / size)

-- len(chunks) == n
abbrev pub has_length : List ChunkInfo → ℤ → Bool
has_length cs (pos n) = eqb (length cs) n
has_length cs (negsuc n) = false

-- the size of each chunk, the last one's being the rest
unfoldable pub sizes_match : ℕ → ℕ → ℕ → ℕ → List ChunkInfo → Bool
sizes_match i count len size [] = true
sizes_match i count len size (c ∷ cs) =
    eqb c.size (if eqb (i + 1) count then len - i * size else size)
    && sizes_match (i + 1) count len size cs

abbrev check_chunks : List ChunkInfo → ℕ → ℕ → Bool → Result (Unit {0})
check_chunks cs len size enforce =
    if not (in_sequence 0 size cs)
    then err upload_incomplete
    else if not enforce
    then ok tt
    else if not (has_length cs (expected_count len size))
    then err upload_incomplete
    else if not (sizes_match 0 (length cs) len size cs)
    then err upload_incomplete
    else ok tt

unfoldable pub validate_uploaded_chunks : List ChunkInfo → ℤ → ℤ → Bool → Result (Unit {0})
unfolding in_sequence expected_count sizes_match
validate_uploaded_chunks cs (negsuc n) size enforce = err invalid_argument
validate_uploaded_chunks cs (pos len) (negsuc n) enforce = err invalid_argument
validate_uploaded_chunks cs (pos len) (pos zero) enforce = err invalid_argument
validate_uploaded_chunks [] (pos zero) (pos (suc n)) enforce = ok tt
validate_uploaded_chunks (c ∷ cs) (pos zero) (pos (suc n)) enforce = err upload_incomplete
validate_uploaded_chunks [] (pos (suc len)) (pos (suc n)) enforce = err upload_incomplete
validate_uploaded_chunks (c ∷ cs) (pos (suc len)) (pos (suc n)) enforce =
    check_chunks (sort_by by_index (c ∷ cs)) (suc len) (suc n) enforce
