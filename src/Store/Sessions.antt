-- ===== src/Store/Sessions.antt =====
-- internal/adapters/metadata/redis.go: the session port as actions. A command, a script or a
-- transaction is one call: it fails and changes nothing, or takes effect.
use fileupload.Domain.{session_state, SessionStatus}
use fileupload.Meta.Sessions.{
  offset_of-incr_offset, previous_size, incr_offset, total_size, total_size-set_chunk, chunks_of,
  drop_session, set_chunk, expire_session, live_session, set_session, offset_of,
}
use fileupload.Domain.{session_not_found, ChunkInfo, UploadSession}
use fileupload.Base.{
  none, ℤ, ◌==◌, not, ◌+◌, some, select, arith, pos, ◌-◌, ◌≡◌, ltb, List, ◌-ℤ◌, if◌then◌else◌,
  Option, Bytes, ℕ, ◌+ℤ◌,
}
use fileupload.World.{
  pure, gets, raise, after, backend_call, Exec, World, Redis, modify_redis, ◌>>=◌, ◌>>◌,
}

abbrev hour : ℕ
hour = 3600

-- time.Until(at), an hour where that is not positive
unfoldable pub until_or_hour : ℕ → ℕ → ℕ
until_or_hour now at = if ltb now at then at - now else hour

unfoldable pub create_session : UploadSession → Exec (Unit {0})
unfolding until_or_hour
create_session s = do
  now ← gets (λ w. w.now)
  backend_call
  modify_redis
      (λ r. record r { sessions = set_session s (now + until_or_hour now s.expire_at) r.sessions })

unfoldable pub get_session : Bytes → Exec (Option UploadSession)
get_session id = do backend_call; gets (λ w. live_session id w.now w.redis.sessions)

unfoldable pub claim : Option UploadSession → Exec UploadSession
unfolding until_or_hour
claim none = raise session_not_found
claim (some s) = elim s.status [
  | SessionStatus.active ↦ do
    now ← gets (λ w. w.now)
    let s' = record s { status = SessionStatus.finalizing }
    modify_redis (λ r. record r {
      sessions = set_session s' (now + until_or_hour now s.expire_at) r.sessions;
    })
    pure s'
  | _ ↦ raise session_state
]

-- WATCH: the read and the write are one step, so that one of several callers gets the session.
unfoldable pub claim_session_finalizing : Bytes → Exec UploadSession
unfolding claim
claim_session_finalizing id = do found ← get_session id; claim found

-- The script takes the chunk's old size off the counter.
unfoldable pub update_offset : Bytes → ChunkInfo → Exec (Unit {0})
update_offset id c = do
  backend_call
  modify_redis (λ r. record r {
    chunks = set_chunk id c r.chunks;
    offsets = incr_offset id (pos c.size -ℤ pos (previous_size id c.index r.chunks)) r.offsets;
  })

unfoldable pub list_chunks : Bytes → Exec (List ChunkInfo)
list_chunks id = do backend_call; gets (λ w. chunks_of id w.redis.chunks)

unfoldable pub delete_session : Bytes → Exec (Unit {0})
delete_session id = do
  backend_call
  modify_redis (λ r. record r {
    sessions = drop_session id r.sessions;
    chunks = select (λ k. not (k.session_id == id)) r.chunks;
    offsets = select (λ k. not (k.session_id == id)) r.offsets;
  })

unfoldable pub touch_session : Bytes → ℕ → Exec (Unit {0})
touch_session id ttl = do
  now ← gets (λ w. w.now)
  backend_call
  modify_redis (λ r. record r { sessions = expire_session id now (now + ttl) r.sessions })

tally :
    (offset : ℤ) (new old before now : ℕ)
    → offset ≡ pos before
    → now + old ≡ before + new
    → offset +ℤ (pos new -ℤ pos old) ≡ pos now
unfolding ◌+ℤ◌ ◌-ℤ◌
tally offset new old before now e t = ground arith

-- The counter of a session is the sum of its chunks.
abbrev IsTallied : Bytes → Redis → Type 0
IsTallied id r = offset_of id r.offsets ≡ pos (total_size (chunks_of id r.chunks))

-- A chunk that is sent for the first time or again, with whatever size, keeps the session's
-- counter equal to the sum of its chunks, if it was that sum before.
update_offset-IsTallied :
    (id : Bytes) (c : ChunkInfo) (w : World)
    → IsTallied id w.redis
    → IsTallied id (after (update_offset id c) w).redis
unfolding update_offset
update_offset-IsTallied id c w h = ground (
  arith,
  total_size-set_chunk id c w.redis.chunks,
  offset_of-incr_offset id (pos c.size -ℤ pos (previous_size id c.index w.redis.chunks))
      w.redis.offsets,
  tally (offset_of id w.redis.offsets) c.size (previous_size id c.index w.redis.chunks)
      (total_size (chunks_of id w.redis.chunks))
      (total_size (chunks_of id (set_chunk id c w.redis.chunks))),
)
