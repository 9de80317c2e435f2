-- ===== src/Upload/Append.antt =====
-- internal/domain/upload.go: AppendChunk, from the request to the chunk on disk. A request's body is
-- the bytes that it delivers, or a reader that fails. `sum_hex` is the digest of internal/adapters/
-- hasher/sha256.go, which calls crypto/sha256.
pub mod Release
use fileupload.Storage.LocalFs.{delete_object, temp_dir, write}
use fileupload.Store.Sessions.{update_offset, touch_session}
use fileupload.Storage.Paths.{slash}
use fileupload.Upload.Session.{max_upload_chunk_size, get_offset, session_for_namespace}
use fileupload.Domain.{
  slice_checksum, err, session_state, busy, is_active, offset_conflict, backend, invalid_argument,
  ok, UploadSession,
}
use fileupload.Base.{
  none, length, ◌==◌, take, zero, eqb, is_empty, ltb, pos, bytes, ◌||◌, some, false, ◌-◌, ◌∷◌,
  ltb_ℤ, ◌%◌, [], if◌then◌else◌, negsuc, ◌/◌, suc, Bool, pos_part, ◌++◌, Option, ◌+◌, Bytes, ℕ, ℤ,
}
use fileupload.Upload.Config.{not_positive, UploadConfig}
use fileupload.World.{
  ignore, pure, lift, attempt, require, count_call, raise, gets, Exec, ◌>>=◌, ◌>>◌,
}

-- the decimal digits of a number
decimal_digits : ℕ → ℕ → Bytes → Bytes
decimal_digits zero n s = s
decimal_digits (suc fuel) n s =
    let s' = (48 + n % 10) ∷ s in
    let more = decimal_digits fuel (n / 10) s' in if ltb n 10 then s' else more

-- strconv.Itoa of a number that is not negative; each round takes a digit off
unfoldable pub decimal : ℕ → Bytes
unfolding decimal_digits
decimal n = decimal_digits (n + 1) n []

-- sessionID + "/" + fmt.Sprintf("%d.part", index)
unfoldable pub part_path : Bytes → ℕ → Bytes
unfolding decimal
part_path id index = id ++ slash ∷ (decimal index ++ bytes ".part")

-- the bytes of the weighted semaphore that the request takes, and a chunk's limit
unfoldable pub max_bytes : UploadConfig → UploadSession → ℤ
max_bytes cfg s =
    let most =
      if not_positive s.chunk_size || ltb_ℤ max_upload_chunk_size s.chunk_size
      then max_upload_chunk_size
      else s.chunk_size in
    if ltb_ℤ cfg.max_in_flight_bytes most then cfg.max_in_flight_bytes else most

-- Acquire of golang.org/x/sync/semaphore: it takes the weight if that fits, and otherwise waits
-- until the context ends, which is an error.
unfoldable pub acquire_weight : UploadConfig → ℕ → Exec (Unit {0})
acquire_weight cfg n w =
    if ltb_ℤ cfg.max_in_flight_bytes (pos (w.in_flight + n))
    then (err backend, w)
    else (ok tt, record w { in_flight = w.in_flight + n })

unfoldable pub release_weight : ℕ → Exec (Unit {0})
release_weight n w = (ok tt, record w { in_flight = w.in_flight - n })

-- io.ReadAll of the body, limited to one byte more than a chunk may have
unfoldable pub read_body : ℕ → Option Bytes → Exec Bytes
read_body most none = raise backend
read_body most (some body) =
    let chunk = take (most + 1) body in
    if ltb most (length chunk) then raise invalid_argument else pure chunk

-- Submit and the wait for the task. The queue may refuse the task; the request may end before
-- the task has, whose work then goes on.
unfoldable pub submit_chunk : ℕ → Exec (Unit {0}) → Exec (Unit {0})
unfolding release_weight
submit_chunk most task = do
  refused ← gets (λ w. w.fails w.calls)
  count_call
  if refused then (do release_weight most; raise busy) else (do
    outcome ← attempt task
    release_weight most
    ended ← gets (λ w. w.fails w.calls)
    count_call
    if ended then raise backend else lift outcome)

-- offset < 0 || session.ChunkSize <= 0 || offset % session.ChunkSize != 0
aligned : ℤ → ℤ → Bool
aligned (negsuc n) size = false
aligned (pos n) (negsuc m) = false
aligned (pos n) (pos zero) = false
aligned (pos n) (pos (suc m)) = eqb (n % suc m) 0

-- int(offset / session.ChunkSize), of an offset that is aligned
piece_index : ℤ → ℤ → ℕ
piece_index offset size = pos_part offset / pos_part size

module _ (sum_hex : Bytes → Bytes) where
  -- processChunkBytes
  unfoldable pub process_chunk : Bytes → ℕ → Bytes → Bytes → Exec (Unit {0})
  unfolding part_path
  process_chunk id index chunk declared = do
    written ← write temp_dir (part_path id index) (some chunk)
    let actual = sum_hex chunk
    if is_empty declared || actual == declared
        then update_offset id (record { index = index; sha256 = actual; size = written })
        else (do ignore (delete_object temp_dir (part_path id index)); raise slice_checksum)

  unfoldable pub append_limited :
      UploadConfig → UploadSession → ℕ → ℕ → Option Bytes → Bytes → Exec (Unit {0})
  unfolding acquire_weight read_body process_chunk submit_chunk
  append_limited cfg s most index body declared = do
    acquire_weight cfg most
    chunk ← read_body most body
    touch_session s.session_id cfg.session_ttl
    submit_chunk most (process_chunk s.session_id index chunk declared)

  unfoldable pub append_at :
      UploadConfig → UploadSession → ℤ → ℕ → Option Bytes → Bytes → Exec (Unit {0})
  unfolding append_limited
  append_at cfg s (negsuc n) index body declared = raise invalid_argument
  append_at cfg s (pos zero) index body declared = raise invalid_argument
  append_at cfg s (pos (suc n)) index body declared =
      append_limited cfg s (suc n) index body declared

  unfoldable pub append_chunk_for_session :
      UploadConfig → UploadSession → ℤ → Option Bytes → Bytes → Exec (Unit {0})
  unfolding append_at max_bytes
  append_chunk_for_session cfg s (negsuc n) body declared = do
    require (is_active s.status) session_state
    raise invalid_argument
  append_chunk_for_session cfg s (pos index) body declared = do
    require (is_active s.status) session_state
    append_at cfg s (max_bytes cfg s) index body declared

  unfoldable pub append_chunk_for_namespace :
      UploadConfig → Bytes → Bytes → ℤ → Option Bytes → Bytes → Exec (Unit {0})
  unfolding append_chunk_for_session
  append_chunk_for_namespace cfg id ns index body declared = do
    s ← session_for_namespace id ns
    append_chunk_for_session cfg s index body declared

  -- AppendChunkAtOffsetForNamespace; an offset that is not the current one is refused
  unfoldable pub append_chunk_at_offset :
      UploadConfig → Bytes → Bytes → ℤ → Option Bytes → Bytes → Exec ℕ
  unfolding aligned piece_index append_chunk_for_session
  append_chunk_at_offset cfg id ns offset body declared = do
    s ← session_for_namespace id ns
    require (aligned offset s.chunk_size) offset_conflict
    current ← get_offset id
    require (eqb current (pos_part offset)) offset_conflict
    append_chunk_for_session cfg s (pos (piece_index offset s.chunk_size)) body declared
    get_offset id
