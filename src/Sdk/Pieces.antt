-- ===== src/Sdk/Pieces.antt =====
-- What the client sends is what the server accepts.
use fileupload.Upload.Chunks.Accept.{validate_iff}
use fileupload.Upload.Chunks.{validate_uploaded_chunks, by_index, two63}
use fileupload.Domain.{ok, ChunkInfo}
use native.Mathlib.Nat.{lt-div-mul-add, div-add-mod'}
use fileupload.Upload.Chunks.Plan.{shape, cut, Fills, Piece}
use fileupload.Sdk.{sent_chunks, chunk_count, sent_chunk, SentChunk, sent_from}
use fileupload.Base.{
  inr, eqb_iff, inl, ◌%◌, eqb, Bool-cases, true, pos, sort_by, length-take, ◌∙◌, sym, ap, refl,
  zero, leb, map, ◌-◌, if◌then◌else◌, arith, suc, ◌≡◌, [], ◌*◌, ◌++◌, ◌≤◌, drop, take, ◌∷◌, ◌+◌,
  length, ◌<◌, Bytes, ℕ, List,
}

length-drop : (n : ℕ) (xs : Bytes) → length (drop n xs) ≡ length xs - n
length-drop zero xs = omega arith
length-drop (suc n) [] = omega arith
length-drop (suc n) (x ∷ xs) = omega (arith, length-drop n xs)

take-drop : (k : ℕ) (xs : Bytes) → take k xs ++ drop k xs ≡ xs
take-drop zero xs = refl
take-drop (suc k) [] = refl
take-drop (suc k) (x ∷ xs) = ap (λ ys. x ∷ ys) (take-drop k xs)

drop-nil : (k : ℕ) → drop {A = ℕ} k [] ≡ []
drop-nil zero = refl
drop-nil (suc k) = refl

drop-drop : (n k m : ℕ) (xs : Bytes) → m ≡ n + k → drop k (drop n xs) ≡ drop m xs
drop-drop zero k m xs e = ap (λ j. drop j xs) (omega arith)
drop-drop (suc n) k zero xs e = absurd (omega arith)
drop-drop (suc n) k (suc m) [] e = drop-nil k
drop-drop (suc n) k (suc m) (x ∷ xs) e = drop-drop n k m xs (omega arith)

-- taking as much as there is
take_all : (k : ℕ) (xs : Bytes) → k ≡ length xs → take k xs ≡ xs
take_all zero [] e = refl
take_all zero (x ∷ xs) e = absurd (omega arith)
take_all (suc k) [] e = absurd (omega arith)
take_all (suc k) (x ∷ xs) e = ap (λ ys. x ∷ ys) (take_all k xs (omega arith))

append_nil : (xs : Bytes) → xs ++ [] ≡ xs
append_nil [] = refl
append_nil (x ∷ xs) = ap (λ ys. x ∷ ys) (append_nil xs)

drop_all : (n : ℕ) (xs : Bytes) → length xs ≤ n → drop n xs ≡ []
drop_all zero [] h = refl
drop_all zero (x ∷ xs) h = absurd (omega arith)
drop_all (suc n) [] h = refl
drop_all (suc n) (x ∷ xs) h = drop_all n xs (omega arith)

chunk_count-Fills :
    (total size : ℕ) → 0 < size → 0 < total → Fills (chunk_count total size) total size
chunk_count-Fills total size q p = elim (Bool-cases (eqb (total % size) 0)) [
  | inl even ↦
      rw (even, chunk_count)
        (
          omega (arith, (eqb_iff (total % size) 0).0 even, div-add-mod' total size),
          omega (arith, (eqb_iff (total % size) 0).0 even, div-add-mod' total size),
        )
  | inr odd ↦
      rw (odd, chunk_count)
        (ground (arith, odd, div-add-mod' total size), omega (arith, lt-div-mul-add {a = total} q))
]

-- a chunk as the server's check sees it
abbrev pub piece_of : SentChunk → Piece
piece_of c = record { index = c.index; size = length c.content }

-- the contents of the chunks, one after the other
abbrev pub joined : List SentChunk → Bytes
joined [] = []
joined (c ∷ cs) = c.content ++ joined cs

-- a chunk holds `size` bytes, or what is left
sent_content :
    (size : ℕ) (content : Bytes) (i rest : ℕ)
    → rest + i * size ≡ length content
    → (sent_chunk size content i).content
      ≡ take (if leb rest size then rest else size) (drop (i * size) content)
unfolding sent_chunk
sent_content size content i rest e = ap (λ w. take w (drop (i * size) content)) (ground arith)

sent_size :
    (size : ℕ) (content : Bytes) (i rest : ℕ)
    → rest + i * size ≡ length content
    → length (sent_chunk size content i).content ≡ (if leb rest size then rest else size)
sent_size size content i rest e =
    ap length (sent_content size content i rest e)
    ∙ ground (
      arith,
      length-take (if leb rest size then rest else size) (drop (i * size) content),
      length-drop (i * size) content,
    )

sent_from-cut :
    (n fuel i size rest : ℕ) (content : Bytes)
    → rest + i * size ≡ length content
    → rest ≤ fuel
    → 0 < rest
    → 0 < size
    → Fills n rest size
    → map piece_of (sent_from n size content i) ≡ cut fuel i rest size
unfolding sent_from
sent_from-cut zero fuel i size rest content e f p q (lo, hi) = absurd (omega arith)
sent_from-cut (suc n) zero i size rest content e f p q fills = absurd (omega arith)
sent_from-cut (suc zero) (suc fuel) i size rest content e f p q (lo, hi) =
    ground (arith, sent_size size content i rest e)
sent_from-cut (suc (suc n)) (suc fuel) i size rest content e f p q (lo, hi) = ground (
  arith,
  sent_size size content i rest e,
  sent_from-cut (suc n) fuel (i + 1) size (rest - size) content,
)

sent_from-joined :
    (n i size rest : ℕ) (content : Bytes)
    → rest + i * size ≡ length content
    → 0 < size
    → Fills n rest size
    → joined (sent_from n size content i) ≡ drop (i * size) content
unfolding sent_from
sent_from-joined zero i size rest content e q (lo, hi) =
    sym (drop_all (i * size) content (omega arith))
sent_from-joined (suc zero) i size rest content e q (lo, hi) =
    let tail = drop (i * size) content in
    append_nil (sent_chunk size content i).content
    ∙ sent_content size content i rest e
    ∙ ap (λ w. take w tail) (ground arith)
    ∙ take_all rest tail (omega (arith, length-drop (i * size) content))
sent_from-joined (suc (suc n)) i size rest content e q (lo, hi) =
    let tail = drop (i * size) content in
    let later = joined (sent_from (suc n) size content (i + 1)) in
    let first : (sent_chunk size content i).content ≡ take size tail =
      sent_content size content i rest e ∙ ap (λ w. take w tail) (ground arith) in
    let others : later ≡ drop size tail =
      sent_from-joined (suc n) (i + 1) size (rest - size) content (omega arith) q
        (omega arith, omega arith)
      ∙ sym (drop-drop (i * size) size ((i + 1) * size) content (omega arith)) in
    ap (λ xs. xs ++ later) first ∙ ap (λ xs. take size tail ++ xs) others ∙ take-drop size tail

-- The chunks that the SDK makes of data in memory, put together by index, are the data, and the server's
-- check before a finalize accepts them, in whatever order it has recorded them, if the session has the
-- chunk size that the client asked for. The data and the chunk size are not empty, and their sum fits into
-- an int64.
pub sent_accepted :
    (size : ℕ) (content : Bytes) (cs : List ChunkInfo)
    → 0 < size
    → 0 < length content
    → length content + size ≤ two63
    → map shape (sort_by by_index cs) ≡ map piece_of (sent_chunks size content)
    → (joined (sent_chunks size content) ≡ content)
      × (validate_uploaded_chunks cs (pos (length content)) (pos size) true ≡ ok tt)
unfolding sent_chunks
sent_accepted size content cs q p o recorded =
    let n = chunk_count (length content) size in
    let fills = chunk_count-Fills (length content) size q p in
    (
      sent_from-joined n 0 size (length content) content (omega arith) q fills
          ∙ (let start : 0 * size ≡ 0 = omega arith in ap (λ k. drop k content) start),
      (validate_iff cs (length content) size p q o).1 (
          recorded
          ∙ sent_from-cut n (length content) 0 size (length content) content (omega arith)
              (omega arith) p q fills),
    )
