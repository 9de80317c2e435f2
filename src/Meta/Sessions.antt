-- ===== src/Meta/Sessions.antt =====
-- internal/adapters/metadata/redis.go: the keys of the upload sessions. A key that has run out is
-- not there; the hash of the chunks and the counter have no time limit.
use fileupload.Domain.{ChunkInfo, UploadSession}
use fileupload.Base.{
  eq_of_parts, some, +ℤ_parts, ltb, eq_iff, eqb, ◌&&◌, false, [], arith, ◌+ℤ◌, if◌then◌else◌, none,
  Option, Bool, not, ◌+◌, ◌==◌, pos, ◌≡◌, update_where, ◌∷◌, ℤ, ℕ, select, List, Bytes,
}
use fileupload.World.{OffsetKey, ChunkKey, SessionKey}

-- GET session:<id>
unfoldable pub live_session : Bytes → ℕ → List SessionKey → Option UploadSession
live_session id now [] = none
live_session id now (k ∷ ks) =
    if k.session.session_id == id && ltb now k.deadline
    then some k.session
    else live_session id now ks

unfoldable pub drop_session : Bytes → List SessionKey → List SessionKey
drop_session id = select (λ k. not (k.session.session_id == id))

-- SET session:<id> with a time limit
unfoldable pub set_session : UploadSession → ℕ → List SessionKey → List SessionKey
unfolding drop_session
set_session s deadline ks =
    record { session = s; deadline = deadline } ∷ drop_session s.session_id ks

-- EXPIRE session:<id>, if the key is there
unfoldable pub expire_session : Bytes → ℕ → ℕ → List SessionKey → List SessionKey
expire_session id now deadline =
    update_where (λ k. k.session.session_id == id && ltb now k.deadline)
      (λ k. record k { deadline = deadline })

-- HGETALL chunks:<id>
unfoldable pub chunks_of : Bytes → List ChunkKey → List ChunkInfo
chunks_of id [] = []
chunks_of id (k ∷ ks) =
    let rest = chunks_of id ks in if k.session_id == id then k.chunk ∷ rest else rest

abbrev is_chunk : Bytes → ℕ → ChunkKey → Bool
is_chunk id index k = k.session_id == id && eqb k.chunk.index index

-- HSET chunks:<id> <index>
unfoldable pub set_chunk : Bytes → ChunkInfo → List ChunkKey → List ChunkKey
set_chunk id c [] = record { session_id = id; chunk = c } ∷ []
set_chunk id c (k ∷ ks) =
    if is_chunk id c.index k
    then record { session_id = id; chunk = c } ∷ ks
    else k ∷ set_chunk id c ks

-- the size in HGET chunks:<id> <index>, 0 where there is none
unfoldable pub previous_size : Bytes → ℕ → List ChunkKey → ℕ
previous_size id index [] = 0
previous_size id index (k ∷ ks) =
    if is_chunk id index k then k.chunk.size else previous_size id index ks

-- the value of offset:<id>, 0 where there is none
unfoldable pub offset_of : Bytes → List OffsetKey → ℤ
offset_of id [] = pos 0
offset_of id (k ∷ ks) = if k.session_id == id then k.offset else offset_of id ks

-- INCRBY offset:<id>
unfoldable pub incr_offset : Bytes → ℤ → List OffsetKey → List OffsetKey
incr_offset id n [] = record { session_id = id; offset = n } ∷ []
incr_offset id n (k ∷ ks) =
    if k.session_id == id then record k { offset = k.offset +ℤ n } ∷ ks else k ∷ incr_offset id n ks

-- the bytes of a list of chunks
unfoldable pub total_size : List ChunkInfo → ℕ
total_size [] = 0
total_size (c ∷ cs) = c.size + total_size cs

-- A chunk that is written again counts once.
pub total_size-set_chunk :
    (id : Bytes) (c : ChunkInfo) (ks : List ChunkKey)
    → total_size (chunks_of id (set_chunk id c ks)) + previous_size id c.index ks
      ≡ total_size (chunks_of id ks) + c.size
unfolding total_size chunks_of set_chunk previous_size
total_size-set_chunk id c [] = ground (arith, eq_iff id id)
total_size-set_chunk id c (k ∷ ks) = ground (arith, eq_iff id id, total_size-set_chunk id c ks)

pub offset_of-incr_offset :
    (id : Bytes) (n : ℤ) (ks : List OffsetKey)
    → offset_of id (incr_offset id n ks) ≡ offset_of id ks +ℤ n
unfolding offset_of incr_offset
offset_of-incr_offset id n [] =
    ground (arith, eq_iff id id, +ℤ_parts (pos 0) n, eq_of_parts n (pos 0 +ℤ n))
offset_of-incr_offset id n (k ∷ ks) = ground (arith, offset_of-incr_offset id n ks)

-- The other sessions keep their chunks.
pub chunks_of-set_chunk_ne :
    (id j : Bytes) (c : ChunkInfo) (ks : List ChunkKey)
    → (id == j) ≡ false
    → chunks_of j (set_chunk id c ks) ≡ chunks_of j ks
unfolding chunks_of set_chunk
chunks_of-set_chunk_ne id j c [] ne = ground arith
chunks_of-set_chunk_ne id j c (k ∷ ks) ne = ground (
  arith,
  eq_iff k.session_id id,
  eq_iff id j,
  eq_iff k.session_id j,
  chunks_of-set_chunk_ne id j c ks,
)
