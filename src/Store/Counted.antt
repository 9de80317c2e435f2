-- ===== src/Store/Counted.antt =====
-- The calls that leave the tables of blobs and files alone keep the reference counts right.
use fileupload.Domain.{ChunkInfo, UploadSession}
use fileupload.Base.{none, ℕ, arith, some, List, Option, Bytes}
use fileupload.Ids.{new_id}
use fileupload.Store.Integrity.{IsCounted}
use fileupload.World.Keeps.{Keeps-bind, keeps_rules, Keeps}
use fileupload.Storage.LocalFs.{
  temp_dir, data_dir, set_objects, delete_object, copy_into, Root, open_object, write,
}
use fileupload.Store.{get_file, get_blob_by_sha}
use fileupload.Store.Sessions.{
  list_chunks, touch_session, update_offset, get_session, claim_session_finalizing, claim,
  create_session, delete_session,
}
use fileupload.World.{Object, backend_call, count_call, World}

-- The invariant on the reference counts, of a whole world.
abbrev pub Counted : World → Type 0
Counted w = IsCounted w.db

pub get_file-Counted : (id : Bytes) → Keeps Counted (get_file id)
unfolding get_file
get_file-Counted id = record { from = λ w h. ground arith }

pub get_blob_by_sha-Counted : (sha : Bytes) → Keeps Counted (get_blob_by_sha sha)
unfolding get_blob_by_sha
get_blob_by_sha-Counted sha = record { from = λ w h. ground arith }

pub new_id-Counted : Keeps Counted new_id
unfolding new_id
new_id-Counted = record { from = λ w h. h }

pub create_session-Counted : (s : UploadSession) → Keeps Counted (create_session s)
unfolding create_session
create_session-Counted s = record { from = λ w h. ground arith }

pub get_session-Counted : (id : Bytes) → Keeps Counted (get_session id)
unfolding get_session
get_session-Counted id = record { from = λ w h. ground arith }

claim-Counted : (o : Option UploadSession) → Keeps Counted (claim o)
unfolding claim
claim-Counted none = record { from = λ w h. h }
claim-Counted (some s) = record { from = λ w h. ground arith }

pub claim_session_finalizing-Counted : (id : Bytes) → Keeps Counted (claim_session_finalizing id)
unfolding claim_session_finalizing
claim_session_finalizing-Counted id =
    Keeps-bind (get_session id) claim (get_session-Counted id) claim-Counted

pub touch_session-Counted : (id : Bytes) (ttl : ℕ) → Keeps Counted (touch_session id ttl)
unfolding touch_session
touch_session-Counted id ttl = record { from = λ w h. ground arith }

pub list_chunks-Counted : (id : Bytes) → Keeps Counted (list_chunks id)
unfolding list_chunks
list_chunks-Counted id = record { from = λ w h. ground arith }

pub update_offset-Counted : (id : Bytes) (c : ChunkInfo) → Keeps Counted (update_offset id c)
unfolding update_offset
update_offset-Counted id c = record { from = λ w h. ground arith }

pub delete_session-Counted : (id : Bytes) → Keeps Counted (delete_session id)
unfolding delete_session
delete_session-Counted id = record { from = λ w h. ground arith }

set_objects-Counted : (root : Root) (os : List Object) → Keeps Counted (set_objects root os)
set_objects-Counted data_dir os = record { from = λ w h. h }
set_objects-Counted temp_dir os = record { from = λ w h. h }

call-Counted : Keeps Counted backend_call
call-Counted = record { from = λ w h. ground arith }

count_call-Counted : Keeps Counted count_call
count_call-Counted = record { from = λ w h. h }

ruleset call_rules = (keeps_rules, set_objects-Counted, call-Counted, count_call-Counted)

pub open_object-Counted :
    (root : Root) (path : Bytes) (offset len : ℕ) → Keeps Counted (open_object root path offset len)
unfolding open_object
open_object-Counted root path offset len = record { from = λ w h. ground arith }

pub delete_object-Counted : (root : Root) (path : Bytes) → Keeps Counted (delete_object root path)
unfolding delete_object
delete_object-Counted root path = search call_rules

copy_into-Counted :
    (root : Root) (p : Bytes) (stream : Option Bytes) → Keeps Counted (copy_into root p stream)
unfolding copy_into
copy_into-Counted root p none = search call_rules
copy_into-Counted root p (some c) = search call_rules

pub write-Counted :
    (root : Root) (path : Bytes) (stream : Option Bytes) → Keeps Counted (write root path stream)
unfolding write
write-Counted root path stream = search (call_rules, copy_into-Counted)
