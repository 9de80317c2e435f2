-- ===== src/Upload/Service/Sessions.antt =====
-- The operations on sessions that leave the tables of files and blobs alone.
use fileupload.Upload.Commit.{remove_parts}
use fileupload.Store.Sessions.{delete_session, list_chunks, get_session}
use fileupload.Upload.Instant.References.{release_namespace-Counted, reserve_namespace-Counted}
use fileupload.Upload.Finalize.References.{remove_parts-Counted, finalize-Counted}
use fileupload.Domain.{backend, busy, Result, CompressionFormat, UploadSession}
use fileupload.Upload.Config.{UploadConfig}
use fileupload.Upload.Session.{session_for_namespace, open_session, found_session}
use fileupload.Upload.Append.{
  append_limited, append_chunk_for_namespace, release_weight, append_at, read_body, submit_chunk,
  acquire_weight, append_chunk_for_session, process_chunk,
}
use fileupload.Upload.Finalize.{or_none, abort_for_namespace, finalize_for_namespace, abort}
use fileupload.Base.{ℤ, ℕ, Bytes, Option, arith, none, some, zero, suc, pos, negsuc}
use fileupload.World.{attempt, gets, Exec, count_call}
use fileupload.World.Keeps.{
  Keeps-lift, Keeps-attempt, Keeps-raise, Keeps-if, Keeps-gets, Keeps, Keeps-bind, keeps_rules,
  Keeps-or_else,
}
use fileupload.Store.Counted.{
  delete_session-Counted, create_session-Counted, delete_object-Counted, update_offset-Counted,
  list_chunks-Counted, new_id-Counted, touch_session-Counted, get_session-Counted, write-Counted,
  Counted,
}

found_session-Counted : (o : Option UploadSession) → Keeps Counted (found_session o)
unfolding found_session
found_session-Counted none = search keeps_rules
found_session-Counted (some s) = search keeps_rules

session_for_namespace-Counted : (id ns : Bytes) → Keeps Counted (session_for_namespace id ns)
unfolding session_for_namespace
session_for_namespace-Counted id ns =
    search (keeps_rules, get_session-Counted, found_session-Counted)

pub open_session-Counted :
    (cfg : UploadConfig) (sha : Bytes) (len : ℤ) (comp : CompressionFormat) (chunk : ℤ)
    (ns name : Bytes)
    → Keeps Counted (open_session cfg sha len comp chunk ns name)
unfolding open_session
open_session-Counted cfg sha len comp chunk ns name =
    search
      (
        keeps_rules, Keeps-or_else, new_id-Counted, reserve_namespace-Counted,
        create_session-Counted, release_namespace-Counted,
      )
      depth 9

acquire_weight-Counted : (cfg : UploadConfig) (n : ℕ) → Keeps Counted (acquire_weight cfg n)
unfolding acquire_weight
acquire_weight-Counted cfg n = record { from = λ w h. ground arith }

release_weight-Counted : (n : ℕ) → Keeps Counted (release_weight n)
unfolding release_weight
release_weight-Counted n = record { from = λ w h. h }

read_body-Counted : (most : ℕ) (body : Option Bytes) → Keeps Counted (read_body most body)
unfolding read_body
read_body-Counted most none = search keeps_rules
read_body-Counted most (some b) = search keeps_rules

count_call-Counted : Keeps Counted count_call
count_call-Counted = record { from = λ w h. h }

submit_chunk-Counted :
    (most : ℕ) (task : Exec (Unit {0}))
    → Keeps Counted task
    → Keeps Counted (submit_chunk most task)
unfolding submit_chunk
submit_chunk-Counted most task k =
    Keeps-bind (gets (λ w. w.fails w.calls)) _ (Keeps-gets (λ w. w.fails w.calls)) λ refused.
      Keeps-bind count_call _ count_call-Counted λ _.
        Keeps-if refused _ _
          (Keeps-bind (release_weight most) _ (release_weight-Counted most) (λ _. Keeps-raise busy))
          (Keeps-bind (attempt task) _ (Keeps-attempt task k) λ outcome.
            Keeps-bind (release_weight most) _ (release_weight-Counted most) λ _.
              Keeps-bind (gets (λ w. w.fails w.calls)) _ (Keeps-gets (λ w. w.fails w.calls))
                λ ended.
                  Keeps-bind count_call _ count_call-Counted
                    λ _. Keeps-if ended _ _ (Keeps-raise backend) (Keeps-lift outcome))

process_chunk-Counted :
    (sum_hex : Bytes → Bytes) (id : Bytes) (index : ℕ) (chunk declared : Bytes)
    → Keeps Counted (process_chunk sum_hex id index chunk declared)
unfolding process_chunk
process_chunk-Counted sum_hex id index chunk declared =
    search (keeps_rules, write-Counted, update_offset-Counted, delete_object-Counted)

append_limited-Counted :
    (sum_hex : Bytes → Bytes) (cfg : UploadConfig) (s : UploadSession) (most index : ℕ)
    (body : Option Bytes) (declared : Bytes)
    → Keeps Counted (append_limited sum_hex cfg s most index body declared)
unfolding append_limited
append_limited-Counted sum_hex cfg s most index body declared = search (
  keeps_rules, acquire_weight-Counted, read_body-Counted, touch_session-Counted,
  submit_chunk-Counted, process_chunk-Counted,
)

append_at-Counted :
    (sum_hex : Bytes → Bytes) (cfg : UploadConfig) (s : UploadSession) (most : ℤ) (index : ℕ)
    (body : Option Bytes) (declared : Bytes)
    → Keeps Counted (append_at sum_hex cfg s most index body declared)
unfolding append_at
append_at-Counted sum_hex cfg s (negsuc n) index body declared = search keeps_rules
append_at-Counted sum_hex cfg s (pos zero) index body declared = search keeps_rules
append_at-Counted sum_hex cfg s (pos (suc n)) index body declared =
    append_limited-Counted sum_hex cfg s (suc n) index body declared

for_session-Counted :
    (sum_hex : Bytes → Bytes) (cfg : UploadConfig) (s : UploadSession) (index : ℤ)
    (body : Option Bytes) (declared : Bytes)
    → Keeps Counted (append_chunk_for_session sum_hex cfg s index body declared)
unfolding append_chunk_for_session
for_session-Counted sum_hex cfg s (negsuc n) body declared = search keeps_rules
for_session-Counted sum_hex cfg s (pos index) body declared =
    search (keeps_rules, append_at-Counted)

pub append_chunk-Counted :
    (sum_hex : Bytes → Bytes) (cfg : UploadConfig) (id ns : Bytes) (index : ℤ) (body : Option Bytes)
    (declared : Bytes)
    → Keeps Counted (append_chunk_for_namespace sum_hex cfg id ns index body declared)
unfolding append_chunk_for_namespace
append_chunk-Counted sum_hex cfg id ns index body declared =
    search (keeps_rules, session_for_namespace-Counted, for_session-Counted)

abort-Counted : (id : Bytes) → Keeps Counted (abort id)
unfolding abort
abort-Counted id = Keeps-bind (get_session id) _ (get_session-Counted id) λ found.
    Keeps-bind (found_session found) _ (found_session-Counted found) λ s.
      Keeps-bind (attempt (list_chunks id)) _
        (Keeps-attempt (list_chunks id) (list_chunks-Counted id))
        λ chunks.
          Keeps-bind (remove_parts id (or_none chunks)) _ (remove_parts-Counted id (or_none chunks))
            λ _.
              Keeps-bind (delete_session id) _ (delete_session-Counted id)
                λ _. release_namespace-Counted id

pub abort_for-Counted : (id ns : Bytes) → Keeps Counted (abort_for_namespace id ns)
unfolding abort_for_namespace
abort_for-Counted id ns = search (keeps_rules, session_for_namespace-Counted, abort-Counted)

pub finalize_for-Counted :
    (sum_hex : Bytes → Bytes) (decompress : CompressionFormat → Bytes → Result (Option Bytes))
    (cfg : UploadConfig) (id ns : Bytes)
    → Keeps Counted (finalize_for_namespace sum_hex decompress cfg id ns)
unfolding finalize_for_namespace
finalize_for-Counted sum_hex decompress cfg id ns =
    search (keeps_rules, session_for_namespace-Counted, finalize-Counted)
