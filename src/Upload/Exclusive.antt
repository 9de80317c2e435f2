-- ===== src/Upload/Exclusive.antt =====
-- internal/domain/upload.go and internal/adapters/metadata/redis.go: a session that is being completed is
-- closed to every other request.
use fileupload.Upload.Session.{found_session, session_for_namespace}
use fileupload.Upload.Finalize.{finalize}
use fileupload.Upload.Config.{UploadConfig}
use fileupload.Upload.Append.{append_chunk_for_session, append_chunk_for_namespace}
use fileupload.Domain.{
  Result, CompressionFormat, backend, finalizing, ok, session_state, err, is_active, UploadSession,
}
use fileupload.Base.{
  eq_refl, ◌==◌, pos, refl, inr, inl, Bool-cases, none, Option, ◌+◌, [], eq_iff, ◌∷◌, arith, true,
  ltb, some, List, false, ◌≡◌, ℕ, Bytes,
}
use fileupload.Meta.Sessions.{set_session, live_session}
use fileupload.Upload.Isolation.{called}
use fileupload.World.{after, result, SessionKey, World}
use fileupload.Store.Sessions.{get_session, claim_session_finalizing, until_or_hour, claim}

-- a session that is not active, and metadata that answer
record IsClosed (id : Bytes) (session : UploadSession) (w : World) : Type 0 where
  pub answers : w.fails w.calls ≡ false
  pub found : live_session id w.now w.redis.sessions ≡ some session
  pub closed : is_active session.status ≡ false

claim_closed :
    (s : UploadSession) (w : World)
    → is_active s.status ≡ false
    → claim (some s) w ≡ (err session_state, w)
unfolding claim
claim_closed s w h = ground arith

live-set_session :
    (s : UploadSession) (now deadline : ℕ) (ks : List SessionKey)
    → ltb now deadline ≡ true
    → live_session s.session_id now (set_session s deadline ks) ≡ some s
unfolding live_session set_session
live-set_session s now deadline ks h = ground (arith, eq_refl s.session_id)

live_session-id :
    (id : Bytes) (now : ℕ) (ks : List SessionKey) (s : UploadSession)
    → live_session id now ks ≡ some s
    → s.session_id ≡ id
unfolding live_session
live_session-id id now [] s e = ground arith
live_session-id id now (k ∷ ks) s e =
    ground (arith, eq_iff k.session.session_id id, live_session-id id now ks s)

until_positive : (now at : ℕ) → ltb now (now + until_or_hour now at) ≡ true
unfolding until_or_hour
until_positive now at = ground arith

-- the claim leaves the session closed
claim-found :
    (s : UploadSession) (w : World) (s' : UploadSession)
    → result (claim (some s)) w ≡ ok s'
    → (s'.session_id ≡ s.session_id)
      × (s'.status ≡ finalizing)
      × (s'.namespace ≡ s.namespace)
      × (live_session s.session_id w.now (after (claim (some s)) w).redis.sessions ≡ some s')
      × ((after (claim (some s)) w).calls ≡ w.calls)
unfolding claim
claim-found s w s' e = ground (
  arith,
  until_positive w.now s.expire_at,
  live-set_session (record s { status = finalizing }) w.now
      (w.now + until_or_hour w.now s.expire_at) w.redis.sessions,
)

claimed :
    (id : Bytes) (o : Option UploadSession) (w : World) (s' : UploadSession)
    → live_session id w.now w.redis.sessions ≡ o
    → result (claim o) w ≡ ok s'
    → (live_session id w.now (after (claim o) w).redis.sessions ≡ some s')
      × (s'.status ≡ finalizing)
      × ((after (claim o) w).calls ≡ w.calls)
      × ((after (claim o) w).now ≡ w.now)
      × ((after (claim o) w).fails ≡ w.fails)
unfolding claim
claimed id none w s' e r = ground arith
claimed id (some s) w s' e r =
    ground (arith, claim-found s w s' r, live_session-id id w.now w.redis.sessions s e)

claim_session_answered :
    (id : Bytes) (w : World)
    → w.fails w.calls ≡ false
    → claim_session_finalizing id w ≡ claim (live_session id w.now w.redis.sessions) (called w)
unfolding claim_session_finalizing get_session
claim_session_answered id w h = rw h

claim_session_failed :
    (id : Bytes) (w : World)
    → w.fails w.calls ≡ true
    → claim_session_finalizing id w ≡ (err backend, called w)
unfolding claim_session_finalizing get_session
claim_session_failed id w h = rw h

-- The caller who claims a session closes it.
claim_session-IsClosed :
    (id : Bytes) (w : World) (s' : UploadSession)
    → result (claim_session_finalizing id) w ≡ ok s'
    → w.fails (w.calls + 1) ≡ false
    → IsClosed id s' (after (claim_session_finalizing id) w)
claim_session-IsClosed id w s' r answers = elim (Bool-cases (w.fails w.calls)) [
  | inl h ↦ ground (arith, claim_session_failed id w h)
  | inr h ↦ record {
    answers = ground (
      arith,
      claim_session_answered id w h,
      claimed id (live_session id w.now w.redis.sessions) (called w) s' refl,
    );
    found = ground (
      arith,
      claim_session_answered id w h,
      claimed id (live_session id w.now w.redis.sessions) (called w) s' refl,
    );
    closed = ground (
      arith,
      claim_session_answered id w h,
      claimed id (live_session id w.now w.redis.sessions) (called w) s' refl,
    );
  }
]

module _ (sum_hex : Bytes → Bytes)
    (decompress : CompressionFormat → Bytes → Result (Option Bytes)) where
  closed-finalize :
      (cfg : UploadConfig) (id : Bytes) (s : UploadSession) (w : World)
      → IsClosed id s w
      → finalize sum_hex decompress cfg id w ≡ (err session_state, called w)
  unfolding finalize
  closed-finalize cfg id s w h =
      rw (claim_session_answered id w h.answers, h.found, claim_closed s (called w) h.closed)

  closed-append :
      (cfg : UploadConfig) (id ns : Bytes) (s : UploadSession) (index : ℕ) (body : Option Bytes)
      (declared : Bytes) (w : World)
      → IsClosed id s w
      → s.namespace == ns ≡ true
      → append_chunk_for_namespace sum_hex cfg id ns (pos index) body declared w
        ≡ (err session_state, called w)
  unfolding append_chunk_for_namespace append_chunk_for_session session_for_namespace found_session
      get_session
  closed-append cfg id ns s index body declared w h same = rw (h.answers, h.found, same, h.closed)

  -- Once a claim of a session has succeeded, the next Finalize of that session, and the next chunk
  -- that its owner sends to it, are refused for the session's state, and nothing in any store
  -- changes; the call that looks the session up must not fail.
  pub finalize_exclusive :
      (cfg : UploadConfig) (id : Bytes) (s : UploadSession) (index : ℕ) (body : Option Bytes)
      (declared : Bytes) (w : World)
      → result (claim_session_finalizing id) w ≡ ok s
      → w.fails (w.calls + 1) ≡ false
      → let w' = after (claim_session_finalizing id) w in
        (finalize sum_hex decompress cfg id w' ≡ (err session_state, called w'))
        × (append_chunk_for_namespace sum_hex cfg id s.namespace (pos index) body declared w'
            ≡ (err session_state, called w'))
  finalize_exclusive cfg id s index body declared w r answers =
      let h = claim_session-IsClosed id w s r answers in
      (
        closed-finalize cfg id s (after (claim_session_finalizing id) w) h,
        closed-append cfg id s.namespace s index body declared
            (after (claim_session_finalizing id) w) h (eq_refl s.namespace),
      )
