-- ===== src/Upload/Isolation.antt =====
-- internal/domain/upload.go: what the operations for a namespace do with a session of another one.
use fileupload.Upload.Config.{UploadConfig}
use fileupload.Upload.Finalize.{abort_for_namespace, finalize_for_namespace}
use fileupload.Upload.Append.{append_chunk_at_offset, append_chunk_for_namespace}
use fileupload.Meta.Sessions.{live_session}
use fileupload.Domain.{
  backend, DomainError, forbidden, err, Result, CompressionFormat, UploadSession,
}
use fileupload.Upload.Session.{
  get_offset_for_namespace, get_status_for_namespace, found_session, session_for_namespace,
}
use fileupload.Base.{
  inr, if◌then◌else◌, inl, refl, Bool-cases, ℤ, ◌==◌, some, Option, false, ◌≡◌, ◌+◌, Bytes,
}
use fileupload.World.{Exec, ◌>>=◌, World}
use fileupload.Store.Sessions.{get_session}

-- the world after a call that changes nothing else
abbrev pub called : World → World
called w = record w { calls = w.calls + 1 }

-- a session of a namespace that is not the caller's has a row
pub record IsForeign (id ns : Bytes) (w : World) : Type 0 where
  pub session : UploadSession
  pub found : live_session id w.now w.redis.sessions ≡ some session
  pub foreign : session.namespace == ns ≡ false

-- how an operation fails: as forbidden, or, where the session cannot be looked up, as a failure of the
-- backend
abbrev pub refusal : World → DomainError
refusal w = if w.fails w.calls then backend else forbidden

session_for_namespace_foreign :
    (id ns : Bytes) (w : World)
    → IsForeign id ns w
    → session_for_namespace id ns w ≡ (err (refusal w), called w)
unfolding session_for_namespace found_session get_session
session_for_namespace_foreign id ns w h = elim (Bool-cases (w.fails w.calls)) [
  | inl down ↦ rw down refl
  | inr up ↦ rw (up, h.found, h.foreign) refl
]

refused :
    {A : Type 0} (id ns : Bytes) (f : UploadSession → Exec A) (w : World)
    → IsForeign id ns w
    → (session_for_namespace id ns >>= f) w ≡ (err (refusal w), called w)
refused id ns f w h = rw (session_for_namespace_foreign id ns w h) refl

module _ (sum_hex : Bytes → Bytes)
    (decompress : CompressionFormat → Bytes → Result (Option Bytes)) where
  -- With the identifier of a session of another namespace, a caller can neither send a chunk to it,
  -- at its index or at its offset, nor complete it, abort it, or read its state or its offset: each
  -- operation fails, as forbidden where the lookup of the session answers and as a failure of the backend
  -- where it does not, and nothing in any store has changed.
  pub session_isolation :
      (cfg : UploadConfig) (id ns : Bytes) (index offset : ℤ) (body : Option Bytes)
      (declared : Bytes) (w : World)
      → IsForeign id ns w
      → (append_chunk_for_namespace sum_hex cfg id ns index body declared w
          ≡ (err (refusal w), called w))
        × (append_chunk_at_offset sum_hex cfg id ns offset body declared w
            ≡ (err (refusal w), called w))
        × (finalize_for_namespace sum_hex decompress cfg id ns w ≡ (err (refusal w), called w))
        × (abort_for_namespace id ns w ≡ (err (refusal w), called w))
        × (get_status_for_namespace id ns w ≡ (err (refusal w), called w))
        × (get_offset_for_namespace id ns w ≡ (err (refusal w), called w))
  unfolding append_chunk_for_namespace append_chunk_at_offset finalize_for_namespace
      abort_for_namespace get_status_for_namespace get_offset_for_namespace
  session_isolation cfg id ns index offset body declared w h = (
    refused id ns _ w h,
    refused id ns _ w h,
    refused id ns _ w h,
    refused id ns _ w h,
    refused id ns _ w h,
    refused id ns _ w h,
  )
