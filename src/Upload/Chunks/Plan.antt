-- ===== src/Upload/Chunks/Plan.antt =====
-- What validateUploadedChunks accepts: the pieces of the declared length, in whatever order.
use native.Mathlib.Nat.{div-mul-le_self, lt-div-mul-add, div-eq_of_lt-le}
use fileupload.Domain.{ChunkInfo}
use fileupload.Base.{
  ◌/◌, arith, zero, ◌∷◌, map, true, leb, ◌≡◌, if◌then◌else◌, ◌≤◌, length, ◌-◌, ◌+◌, suc, [], ◌<◌,
  ◌*◌, List, ℕ,
}
use fileupload.Upload.Chunks.{sizes_match, in_sequence}

-- a chunk as the check sees it
pub record Piece : Type 0 where
  pub index : ℕ
  pub size : ℕ

abbrev pub shape : ChunkInfo → Piece
shape c = record { index = c.index; size = c.size }

-- The pieces of `rest` bytes from the i-th on, each of `size` bytes but the last.
abbrev pub cut : ℕ → ℕ → ℕ → ℕ → List Piece
cut zero i rest size = []
cut (suc fuel) i rest size =
    let later = cut fuel (i + 1) (rest - size) size in
    if leb rest size
    then record { index = i; size = rest } ∷ []
    else record { index = i; size = size } ∷ later

-- With m pieces left, `rest` bytes fill all but the last of them.
abbrev pub Fills : ℕ → ℕ → ℕ → Type 0
Fills m rest size = (m * size < rest + size) × (rest ≤ m * size)

-- the pieces of a list are those of the cut
pub accepted-cut :
    (cs : List ChunkInfo) (fuel i count len size rest : ℕ)
    → i + length cs ≡ count
    → rest + i * size ≡ len
    → rest ≤ fuel
    → 0 < rest
    → 0 < size
    → Fills (length cs) rest size
    → in_sequence i size cs ≡ true
    → sizes_match i count len size cs ≡ true
    → map shape cs ≡ cut fuel i rest size
unfolding in_sequence sizes_match
accepted-cut [] fuel i count len size rest n l f p q (lo, hi) s m = absurd (omega arith)
accepted-cut (c ∷ cs) zero i count len size rest n l f p q fills s m = absurd (omega arith)
accepted-cut (c ∷ []) (suc fuel) i count len size rest n l f p q (lo, hi) s m = ground arith
accepted-cut (c ∷ d ∷ cs) (suc fuel) i count len size rest n l f p q (lo, hi) s m =
    ground (arith, accepted-cut (d ∷ cs) fuel (i + 1) count len size (rest - size))

pub cut-accepted :
    (cs : List ChunkInfo) (fuel i count len size rest : ℕ)
    → i + length cs ≡ count
    → rest + i * size ≡ len
    → rest ≤ fuel
    → 0 < rest
    → 0 < size
    → map shape cs ≡ cut fuel i rest size
    → (in_sequence i size cs ≡ true) × (sizes_match i count len size cs ≡ true)
unfolding in_sequence sizes_match
cut-accepted [] zero i count len size rest n l f p q e = absurd (omega arith)
cut-accepted [] (suc fuel) i count len size rest n l f p q e = ground arith
cut-accepted (c ∷ cs) zero i count len size rest n l f p q e = ground arith
cut-accepted (c ∷ []) (suc zero) i count len size rest n l f p q e = ground arith
cut-accepted (c ∷ []) (suc (suc fuel)) i count len size rest n l f p q e = ground arith
cut-accepted (c ∷ d ∷ cs) (suc fuel) i count len size rest n l f p q e =
    ground (arith, cut-accepted (d ∷ cs) fuel (i + 1) count len size (rest - size))

pub cut-Fills :
    (cs : List ChunkInfo) (fuel i size rest : ℕ)
    → rest ≤ fuel
    → 0 < rest
    → 0 < size
    → map shape cs ≡ cut fuel i rest size
    → (0 < length cs) × Fills (length cs) rest size
cut-Fills cs zero i size rest f p q e = absurd (omega arith)
cut-Fills [] (suc fuel) i size rest f p q e = ground arith
cut-Fills (c ∷ []) (suc zero) i size rest f p q e = ground arith
cut-Fills (c ∷ []) (suc (suc fuel)) i size rest f p q e = ground arith
cut-Fills (c ∷ d ∷ cs) (suc fuel) i size rest f p q e =
    ground (arith, cut-Fills (d ∷ cs) fuel (i + 1) size (rest - size))

-- the count of the pieces, as the source computes it
pub ceil-Fills : (len size : ℕ) → 0 < size → 0 < len → Fills ((len + size - 1) / size) len size
ceil-Fills len size q p = (
  omega (arith, div-mul-le_self (len + size - 1) size),
  omega (arith, lt-div-mul-add {a = len + size - 1} q),
)

pub Fills-ceil :
    (n len size : ℕ) → 0 < size → 0 < len → Fills n len size → (len + size - 1) / size ≡ n
Fills-ceil n len size q p (lo, hi) = div-eq_of_lt-le size (omega arith) (omega arith)
