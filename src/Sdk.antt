-- ===== src/Sdk.antt =====
-- sdk/go/fileupload/upload.go: UploadReader and uploadBytes, the upload of data in memory. The requests are
-- operations of an interface; the chunks, which go out at the same time, are given an order.
pub mod Pieces
use fileupload.World.{lift, attempt, ◌>>=◌, pure, require, raise, ◌>>◌, Exec}
use fileupload.Domain.{Result, invalid_argument, backend, ok, err}
use fileupload.Base.{
  bytes, drop, ◌==◌, ◌||◌, ◌-◌, pos, zero, ◌/◌, take, ◌+◌, ◌%◌, suc, ltb_ℤ, ◌∷◌, ltb, [], length,
  eqb, pos_part, ◌*◌, List, Option, if◌then◌else◌, ℕ, Bytes, ℤ, none, some,
}

-- UploadOptions
pub record UploadOptions : Type 0 where
  pub chunk_size : ℤ
  pub concurrency : ℤ
  pub compression : Bytes
  pub file_name : Bytes

-- what goes out as one chunk
pub record SentChunk : Type 0 where
  pub index : ℕ
  pub offset : ℕ
  pub content : Bytes

-- FileInfo
pub record FileInfo : Type 0 where
  pub file_id : Bytes
  pub sha256 : Bytes
  pub size : ℕ
  pub name : Bytes

-- the requests of the client
pub record Api : Type 0 where
  pub check_exists : Bytes → Bytes → Exec (Option FileInfo)
  pub create_session : ℕ → Bytes → Bytes → ℕ → Bytes → Exec Bytes
  pub upload_chunk : Bytes → SentChunk → Exec (Unit {0})
  pub finalize : Bytes → Exec FileInfo

-- validateUploadOptions
unfoldable pub validate_upload_options : UploadOptions → Exec (Unit {0})
validate_upload_options o = do
  require (ltb_ℤ (pos 0) o.chunk_size) invalid_argument
  require (ltb_ℤ (pos 0) o.concurrency) invalid_argument
  require (o.compression == bytes "none" || o.compression == bytes "zstd") invalid_argument

-- chunkCount
abbrev pub chunk_count : ℕ → ℕ → ℕ
chunk_count total size = if eqb (total % size) 0 then total / size else total / size + 1

-- the i-th pass of the loop: data[start:end]
unfoldable pub sent_chunk : ℕ → Bytes → ℕ → SentChunk
sent_chunk size content i =
    let start = i * size in
    let end = if ltb (length content) (start + size) then length content else start + size in
    record { index = i; offset = start; content = take (end - start) (drop start content) }

-- n passes of the loop
unfoldable pub sent_from : ℕ → ℕ → Bytes → ℕ → List SentChunk
unfolding sent_chunk
sent_from zero size content i = []
sent_from (suc n) size content i = sent_chunk size content i ∷ sent_from n size content (i + 1)

unfoldable pub sent_chunks : ℕ → Bytes → List SentChunk
unfolding sent_from
sent_chunks size content = sent_from (chunk_count (length content) size) size content 0

abbrev pub first_error : Result (Unit {0}) → Result (Unit {0}) → Result (Unit {0})
first_error (err e) rest = err e
first_error (ok u) rest = rest

-- Every chunk goes out before the outcomes are looked at; the first error is returned.
unfoldable pub send_all : (SentChunk → Exec (Unit {0})) → List SentChunk → Exec (Unit {0})
send_all send [] = pure tt
send_all send (c ∷ cs) = do
  r ← attempt (send c)
  rest ← attempt (send_all send cs)
  lift (first_error r rest)

module _ (sum_hex : Bytes → Bytes) (order : List SentChunk → List SentChunk) (api : Api) where
  -- uploadBytes; the options have passed
  unfoldable pub upload_bytes : Bytes → Bytes → UploadOptions → Exec FileInfo
  unfolding sent_chunks send_all
  upload_bytes content sha o = do
    let size = pos_part o.chunk_size
    id ← api.create_session (length content) sha o.compression size o.file_name
    send_all (api.upload_chunk id) (order (sent_chunks size content))
    api.finalize id

  -- UploadReader, with what the reader gives; a negative size is not known
  unfoldable pub upload_reader : Option Bytes → ℤ → UploadOptions → Exec FileInfo
  unfolding validate_upload_options upload_bytes
  upload_reader stream size o = do
    validate_upload_options o
    elim stream [
      | none ↦ raise backend
      | some content ↦ do
        require (ltb_ℤ size (pos 0) || eqb (pos_part size) (length content)) invalid_argument
        let sha = sum_hex content
        known ← api.check_exists sha o.file_name
        elim known [ some info ↦ pure info | none ↦ upload_bytes content sha o ]
    ]
