-- ===== src/Upload/Session.antt =====
-- internal/domain/upload.go: CreateSession, sessionForNamespace, GetOffset and GetStatus.
use fileupload.Ids.{new_id}
use fileupload.Store.Sessions.{create_session, list_chunks, get_session}
use fileupload.Domain.{
  SessionStatus, forbidden, invalid_argument, ChunkInfo, session_not_found, CompressionFormat,
  UploadSession,
}
use fileupload.Upload.Config.{release_namespace, reserve_namespace, not_positive, UploadConfig}
use fileupload.Base.{
  ◌+◌, [], none, some, arith, not, true, negsuc, ◌||◌, ◌==◌, false, ℕ, ◌≡◌, List, Bool, pos,
  if◌then◌else◌, ltb_ℤ, Bytes, Option, ℤ,
}
use fileupload.Meta.Sessions.{total_size}
use fileupload.World.{ignore, or_else, gets, pure, raise, require, Exec, ◌>>=◌, ◌>>◌}

-- maxUploadChunkSize, 64 MiB
abbrev pub max_upload_chunk_size : ℤ
max_upload_chunk_size = pos 67_108_864

abbrev pub min_ℤ : ℤ → ℤ → ℤ
min_ℤ a b = if ltb_ℤ a b then a else b

-- the largest chunk that a request may carry
abbrev pub chunk_ceiling : UploadConfig → ℤ
chunk_ceiling cfg =
    let most = min_ℤ cfg.max_in_flight_bytes max_upload_chunk_size in
    if not_positive most then pos 1 else most

-- the chunk size that a session keeps
unfoldable pub negotiate_chunk_size : UploadConfig → ℤ → ℤ
negotiate_chunk_size cfg asked =
    let wanted = if not_positive asked then cfg.default_chunk_size else asked in
    if not_positive wanted || ltb_ℤ (chunk_ceiling cfg) wanted then chunk_ceiling cfg else wanted

-- length < 0
abbrev pub is_negative : ℤ → Bool
is_negative (pos n) = false
is_negative (negsuc n) = true

unfoldable pub open_session :
    UploadConfig → Bytes → ℤ → CompressionFormat → ℤ → Bytes → Bytes → Exec UploadSession
unfolding negotiate_chunk_size
open_session cfg sha len comp chunk ns name = do
  require (not (is_negative len)) invalid_argument
  id ← new_id
  now ← gets (λ w. w.now)
  let s : UploadSession = record {
    session_id = id;
    file_id = [];
    sha256 = sha;
    upload_length = len;
    compression = comp;
    chunk_size = negotiate_chunk_size cfg chunk;
    namespace = ns;
    file_name = name;
    created_at = now;
    expire_at = now + cfg.session_ttl;
    status = SessionStatus.active;
  }
  reserved ← reserve_namespace cfg id ns len
  or_else (create_session s) (if reserved then ignore (release_namespace id) else pure tt)
  pure s

unfoldable pub found_session : Option UploadSession → Exec UploadSession
found_session none = raise session_not_found
found_session (some s) = pure s

unfoldable pub session_for_namespace : Bytes → Bytes → Exec UploadSession
unfolding found_session
session_for_namespace id ns = do
  found ← get_session id
  s ← found_session found
  require (s.namespace == ns) forbidden
  pure s

-- the chunks of a session, and the bytes received
unfoldable pub get_status : Bytes → Exec (List ChunkInfo × ℕ)
unfolding found_session total_size
get_status id = do
  found ← get_session id
  s ← found_session found
  chunks ← list_chunks id
  pure (chunks, total_size chunks)

unfoldable pub get_offset : Bytes → Exec ℕ
unfolding get_status
get_offset id = do status ← get_status id; pure status.1

unfoldable pub get_offset_for_namespace : Bytes → Bytes → Exec ℕ
unfolding session_for_namespace get_offset
get_offset_for_namespace id ns = do _ ← session_for_namespace id ns; get_offset id

unfoldable pub get_status_for_namespace : Bytes → Bytes → Exec (List ChunkInfo × ℕ)
unfolding session_for_namespace get_status
get_status_for_namespace id ns = do _ ← session_for_namespace id ns; get_status id

-- The chunk size that a session gets is positive, at most the ceiling that the configuration sets,
-- and at most the largest size of a request, whatever the client asks for.
negotiate_bounds :
    (cfg : UploadConfig) (asked : ℤ)
    → (ltb_ℤ (pos 0) (negotiate_chunk_size cfg asked) ≡ true)
      × (ltb_ℤ (chunk_ceiling cfg) (negotiate_chunk_size cfg asked) ≡ false)
      × (ltb_ℤ max_upload_chunk_size (negotiate_chunk_size cfg asked) ≡ false)
unfolding negotiate_chunk_size
negotiate_bounds cfg asked = ground arith
