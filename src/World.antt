-- ===== src/World.antt =====
-- The state that the services of internal/domain share, and the actions over it: the metadata
-- tables (internal/adapters/metadata/sqlite.go), the sessions (redis.go), the two object stores
-- (internal/adapters/storage/localfs.go), the clock and the identifiers (internal/domain/id.go).
-- Every call of a backend may fail: `fails n` says whether the n-th call does.
pub mod Keeps
pub mod Triple
pub mod Inversion
pub mod Avoids
pub mod Reads
use fileupload.Base.{ℤ, ℕ, ◌+◌, Bool, true, false, List, Bytes, if◌then◌else◌}
use fileupload.Domain.{
  DomainError, backend, Result, ok, err, ContentBlob, FileMetadata, ShareEntry, UploadSession,
  ChunkInfo,
}

-- a row of namespace_reservations
pub record Reservation : Type 0 where
  pub reservation_id : Bytes
  pub namespace : Bytes
  pub bytes : ℕ

-- a row of file_tags
pub record TagRow : Type 0 where
  pub file_id : Bytes
  pub tag : Bytes

-- the SQL tables
pub record Db : Type 0 where
  pub files : List FileMetadata
  pub blobs : List ContentBlob
  pub reservations : List Reservation
  pub shares : List ShareEntry
  pub tags : List TagRow

-- a session under its Redis key, with the time at which the key runs out
pub record SessionKey : Type 0 where
  pub session : UploadSession
  pub deadline : ℕ

-- a field of the hash that lists the chunks of a session
pub record ChunkKey : Type 0 where
  pub session_id : Bytes
  pub chunk : ChunkInfo

-- the counter of the bytes that a session has received
pub record OffsetKey : Type 0 where
  pub session_id : Bytes
  pub offset : ℤ

pub record Redis : Type 0 where
  pub sessions : List SessionKey
  pub chunks : List ChunkKey
  pub offsets : List OffsetKey

-- an object of a store
pub record Object : Type 0 where
  pub path : Bytes
  pub content : Bytes

pub record World : Type 0 where
  pub db : Db
  pub redis : Redis
  pub disk : List Object
  pub temp : List Object
  pub now : ℕ
  pub id_prefix : Bytes
  pub id_counter : ℕ
  pub in_flight : ℕ
  pub calls : ℕ
  pub fails : ℕ → Bool

-- What was written before an error stays written, so the world comes back beside the error too.
abbrev pub Exec : Type 0 → Type 0
Exec A = World → Result A × World

module _ {A : Type 0} where
  abbrev pub pure : A → Exec A
  pure a w = (ok a, w)

  abbrev pub raise : DomainError → Exec A
  raise e w = (err e, w)

  -- the value of an action, and the world that it leaves
  abbrev pub result : Exec A → World → Result A
  result m w = (m w).0

  abbrev pub after : Exec A → World → World
  after m w = (m w).1

module _ {A B : Type 0} where
  abbrev pub continue : Result A → (A → Exec B) → Exec B
  continue (ok a) f w = f a w
  continue (err e) f w = (err e, w)

  infixl 5 ◌>>=◌ ◌>>◌
  abbrev pub ◌>>=◌ : Exec A → (A → Exec B) → Exec B
  ◌>>=◌ m f w = let (r, w') = m w in continue r f w'

  abbrev pub ◌>>◌ : Exec A → Exec B → Exec B
  m >> n = m >>= λ _. n

-- `if !b { return e }`
abbrev pub require : Bool → DomainError → Exec (Unit {0})
require true e = pure tt
require false e = raise e

abbrev pub gets : {A : Type 0} → (World → A) → Exec A
gets f w = (ok (f w), w)

-- One call of a backend: it fails, or the caller goes on.
abbrev pub backend_call : Exec (Unit {0})
backend_call w =
    if w.fails w.calls
    then (err backend, record w { calls = w.calls + 1 })
    else (ok tt, record w { calls = w.calls + 1 })

abbrev pub modify_db : (Db → Db) → Exec (Unit {0})
modify_db f w = (ok tt, record w { db = f w.db })

abbrev pub modify_redis : (Redis → Redis) → Exec (Unit {0})
modify_redis f w = (ok tt, record w { redis = f w.redis })

abbrev pub set_disk : List Object → Exec (Unit {0})
set_disk d w = (ok tt, record w { disk = d })

-- `_ = e`, and an error that is only logged: the world that `e` leaves, whatever it returns
abbrev pub ignore : {A : Type 0} → Exec A → Exec (Unit {0})
ignore m w = let (_, w') = m w in (ok tt, w')

-- the outcome of an action as a value, for code that branches on the error
abbrev pub attempt : {A : Type 0} → Exec A → Exec (Result A)
attempt m w = let (r, w') = m w in (ok r, w')

abbrev pub lift : {A : Type 0} → Result A → Exec A
lift r w = (r, w)

-- the number of calls goes up; whether the call failed was read before
abbrev pub count_call : Exec (Unit {0})
count_call w = (ok tt, record w { calls = w.calls + 1 })

-- `defer cleanup()` before `m`: the cleanup runs on every way out, and its outcome is dropped.
abbrev pub defer : {A : Type 0} → Exec (Unit {0}) → Exec A → Exec A
defer cleanup m w = let (r, w') = m w in let (_, w'') = cleanup w' in (r, w'')

abbrev pub clean_up : {A : Type 0} → Result A → Exec (Unit {0}) → World → Result A × World
clean_up (ok a) cleanup w = (ok a, w)
clean_up (err e) cleanup w = let (_, w') = cleanup w in (err e, w')

-- `if err := m; err != nil { cleanup(); return err }`
abbrev pub or_else : {A : Type 0} → Exec A → Exec (Unit {0}) → Exec A
or_else m cleanup w = let (r, w') = m w in clean_up r cleanup w'
