-- ===== src/Lifecycle/Reaper.antt =====
-- internal/lifecycle/reaper.go: one round of SessionReaper, over the port of the temporary storage, with
-- ListExpiredSessions of internal/adapters/metadata/redis.go. Walk fails at once or visits every object.
pub mod Safety
pub mod Removal
pub mod Collects
use mathlib.Core.Option
use fileupload.Store.Sessions.{delete_session, get_session}
use fileupload.Storage.Paths.{slash}
use fileupload.Storage.LocalFs.{temp_dir, delete_object}
use fileupload.Domain.{err, UploadSession, ok, Result}
use fileupload.World.{gets, ignore, pure, attempt, backend_call, SessionKey, Exec, ◌>>=◌, ◌>>◌}
use fileupload.Base.{
  leb, is_empty, map, ◌&&◌, ltb, ◌==◌, if◌then◌else◌, eqb, ◌++◌, [], none, true, some, false,
  select, Bool, Option, ◌∷◌, ℕ, List, Bytes,
}

-- strings.HasPrefix
unfoldable pub has_prefix : Bytes → Bytes → Bool
has_prefix s [] = true
has_prefix [] (p ∷ ps) = false
has_prefix (c ∷ s) (p ∷ ps) = eqb c p && has_prefix s ps

-- path[:strings.Index(path, "/")], if there is a slash
unfoldable pub first_part : Bytes → Option Bytes
first_part [] = none
first_part (c ∷ s) = if eqb c slash then some [] else Option.map (λ p. c ∷ p) (first_part s)

unfoldable pub walk_paths : Exec (List Bytes)
walk_paths = do backend_call; gets (λ w. map (λ o. o.path) w.temp)

-- what a walk visits; its error is dropped
abbrev pub or_nothing : Result (List Bytes) → List Bytes
or_nothing (ok ps) = ps
or_nothing (err e) = []

unfoldable pub delete_all : List Bytes → Exec (Unit {0})
delete_all [] = pure tt
delete_all (p ∷ ps) = do ignore (delete_object temp_dir p); delete_all ps

-- err == nil && ttl <= 0
unfoldable pub if_expired : SessionKey → Result (Unit {0}) → ℕ → List Bytes → List Bytes
if_expired k (err e) now rest = rest
if_expired k (ok u) now rest = if leb k.deadline now then k.session.session_id ∷ rest else rest

-- the loop over the keys that SCAN finds: a key whose TTL has run out
unfoldable pub expired_among : List SessionKey → Exec (List Bytes)
unfolding if_expired
expired_among [] = pure []
expired_among (k ∷ ks) = do
  r ← attempt backend_call
  now ← gets (λ w. w.now)
  rest ← expired_among ks
  pure (if_expired k r now rest)

-- ListExpiredSessions; SCAN finds the keys that have not run out
unfoldable pub list_expired_sessions : Exec (List Bytes)
unfolding expired_among
list_expired_sessions = do
  backend_call
  keys ← gets (λ w. select (λ k. ltb w.now k.deadline) w.redis.sessions)
  expired_among keys

-- cleanupSession
unfoldable pub cleanup_session : Bytes → Exec (Unit {0})
unfolding walk_paths delete_all has_prefix
cleanup_session id = do
  visited ← attempt walk_paths
  delete_all (select (λ p. has_prefix p (id ++ slash ∷ [])) (or_nothing visited))
  ignore (delete_session id)

unfoldable pub cleanup_sessions : List Bytes → Exec (Unit {0})
unfolding cleanup_session
cleanup_sessions [] = pure tt
cleanup_sessions (id ∷ ids) = do cleanup_session id; cleanup_sessions ids

abbrev pub part_is : Bytes → Option Bytes → Bool
part_is id none = false
part_is id (some p) = p == id

-- groups[id]
unfoldable pub group_of : Bytes → List Bytes → List Bytes
unfolding first_part
group_of id = select (λ p. part_is id (first_part p))

abbrev pub add_key : Option Bytes → List Bytes → List Bytes
add_key none ids = ids
add_key (some p) ids = p ∷ ids

-- the keys of groups, a key once for each path
unfoldable pub group_keys : List Bytes → List Bytes
unfolding first_part
group_keys [] = []
group_keys (p ∷ ps) = add_key (first_part p) (group_keys ps)

-- err != nil || session != nil keeps the group
unfoldable pub drop_group : List Bytes → Result (Option UploadSession) → Exec (Unit {0})
unfolding delete_all
drop_group ps (err e) = pure tt
drop_group ps (ok (some s)) = pure tt
drop_group ps (ok none) = delete_all ps

unfoldable pub cleanup_groups : List Bytes → List Bytes → Exec (Unit {0})
unfolding group_of drop_group
cleanup_groups paths [] = pure tt
cleanup_groups paths (id ∷ ids) = do
  (if is_empty id
      then pure tt
      else (do s ← attempt (get_session id); drop_group (group_of id paths) s))
  cleanup_groups paths ids

-- the order in which Go goes through the keys of a map, each of them once
module _ (order : List Bytes → List Bytes) where
  -- cleanupOrphanParts
  unfoldable pub cleanup_orphan_parts : Exec (Unit {0})
  unfolding walk_paths group_keys cleanup_groups
  cleanup_orphan_parts = do
    visited ← attempt walk_paths
    let paths = or_nothing visited
    cleanup_groups paths (order (group_keys paths))

  unfoldable pub after_scan : Result (List Bytes) → Exec (Unit {0})
  unfolding cleanup_sessions cleanup_orphan_parts
  after_scan (err e) = pure tt
  after_scan (ok ids) = do cleanup_sessions ids; cleanup_orphan_parts

  -- reap
  unfoldable pub reap : Exec (Unit {0})
  unfolding list_expired_sessions after_scan
  reap = do expired ← attempt list_expired_sessions; after_scan expired
