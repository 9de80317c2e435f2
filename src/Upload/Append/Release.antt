-- ===== src/Upload/Append/Release.antt =====
-- AppendChunk and the weight of the chunk semaphore.
use fileupload.Upload.Config.{UploadConfig}
use fileupload.Domain.{err, UploadSession, ok, Result, ChunkInfo}
use fileupload.Upload.Append.{
  read_body, acquire_weight, append_limited, release_weight, submit_chunk, process_chunk,
}
use fileupload.World.Keeps.{Keeps, keeps_rules}
use fileupload.Store.Sessions.{update_offset, touch_session}
use fileupload.Storage.LocalFs.{
  temp_dir, data_dir, set_objects, Root, delete_object, write, copy_into,
}
use fileupload.Base.{
  refl, take, length-take, pos, ltb_ℤ, ◌&&◌, if◌then◌else◌, length, leb, true, ◌+◌, false, Bool,
  none, some, Option, List, ◌≡◌, Bytes, ℕ, arith,
}
use fileupload.World.{◌>>◌, continue, result, after, Exec, Object, backend_call, count_call, World}

-- the weight that is taken
abbrev pub Weight : ℕ → World → Type 0
Weight n w = w.in_flight ≡ n

set_objects-Weight :
    (n : ℕ) (root : Root) (os : List Object) → Keeps (Weight n) (set_objects root os)
set_objects-Weight n data_dir os = record { from = λ w h. h }
set_objects-Weight n temp_dir os = record { from = λ w h. h }

call-Weight : (n : ℕ) → Keeps (Weight n) backend_call
call-Weight n = record { from = λ w h. ground arith }

count_call-Weight : (n : ℕ) → Keeps (Weight n) count_call
count_call-Weight n = record { from = λ w h. h }

ruleset weight_rules = (keeps_rules, set_objects-Weight, call-Weight, count_call-Weight)

delete_object-Weight :
    (n : ℕ) (root : Root) (path : Bytes) → Keeps (Weight n) (delete_object root path)
unfolding delete_object
delete_object-Weight n root path = search weight_rules

copy_into-Weight :
    (n : ℕ) (root : Root) (p : Bytes) (stream : Option Bytes)
    → Keeps (Weight n) (copy_into root p stream)
unfolding copy_into
copy_into-Weight n root p none = search weight_rules
copy_into-Weight n root p (some c) = search weight_rules

write-Weight :
    (n : ℕ) (root : Root) (path : Bytes) (stream : Option Bytes)
    → Keeps (Weight n) (write root path stream)
unfolding write
write-Weight n root path stream = search (weight_rules, copy_into-Weight)

update_offset-Weight : (n : ℕ) (id : Bytes) (c : ChunkInfo) → Keeps (Weight n) (update_offset id c)
unfolding update_offset
update_offset-Weight n id c = record { from = λ w h. ground arith }

touch_session-Weight : (n : ℕ) (id : Bytes) (ttl : ℕ) → Keeps (Weight n) (touch_session id ttl)
unfolding touch_session
touch_session-Weight n id ttl = record { from = λ w h. ground arith }

process_chunk-Weight :
    (sum_hex : Bytes → Bytes) (n : ℕ) (id : Bytes) (index : ℕ) (chunk declared : Bytes)
    → Keeps (Weight n) (process_chunk sum_hex id index chunk declared)
unfolding process_chunk
process_chunk-Weight sum_hex n id index chunk declared =
    search (weight_rules, write-Weight, update_offset-Weight, delete_object-Weight)

-- The queue takes the task or not, and the request waits for it or not: the weight comes back.
submit_chunk-Weight :
    (n most : ℕ) (task : Exec (Unit {0})) (w : World)
    → Keeps (Weight (n + most)) task
    → Weight (n + most) w
    → Weight n (after (submit_chunk most task) w)
unfolding submit_chunk release_weight
submit_chunk-Weight n most task w keeps h =
    ground (arith, keeps.from (record w { calls = w.calls + 1 }) h)

abbrev pub is_ok : {A : Type 0} → Result A → Bool
is_ok (ok a) = true
is_ok (err e) = false

abbrev pub read_body_fits : (most : ℕ) (body : Option Bytes) → Bool
read_body_fits most none = false
read_body_fits most (some body) = leb (length body) most

continue-Weight :
    {A B : Type 0} (n m : ℕ) (r : Result A) (f : A → Exec B) (w : World)
    → ((a : A) → Weight m w → Weight n (after (f a) w))
    → Weight m w
    → Weight (if is_ok r then n else m) (after (continue r f) w)
continue-Weight n m (ok a) f w step h = step a h
continue-Weight n m (err e) f w step h = h

module _ (sum_hex : Bytes → Bytes) (cfg : UploadConfig) (s : UploadSession) where
  -- a chunk that is read, whose session's key is set again or not
  submit_read-Weight :
      (n most index : ℕ) (chunk declared : Bytes) (w : World)
      → Weight (n + most) w
      → Weight
          (if is_ok (result (touch_session s.session_id cfg.session_ttl) w) then n else n + most)
          (after
            (do
              touch_session s.session_id cfg.session_ttl
              submit_chunk most (process_chunk sum_hex s.session_id index chunk declared))
            w)
  submit_read-Weight n most index chunk declared w h =
      continue-Weight n (n + most) (result (touch_session s.session_id cfg.session_ttl) w) _
        (after (touch_session s.session_id cfg.session_ttl) w)
        (λ _ h'.
          submit_chunk-Weight n most _ (after (touch_session s.session_id cfg.session_ttl) w)
            (process_chunk-Weight sum_hex (n + most) s.session_id index chunk declared) h')
        ((touch_session-Weight (n + most) s.session_id cfg.session_ttl).from w h)

  -- the request comes to submit its chunk: the body fits, and the session's key is set again
  abbrev pub comes_to_submit : ℕ → Option Bytes → World → Bool
  comes_to_submit most body w =
      read_body_fits most body
      && is_ok (
          result (touch_session s.session_id cfg.session_ttl)
            (record w { in_flight = w.in_flight + most }))

  -- A request that gets the weight of its chunk gives it back exactly if it comes to submit the
  -- chunk, whether the worker queue, the storage or the metadata then fail or not. If the body is
  -- too long or cannot be read, or the session cannot be touched, the weight stays taken.
  pub append_weight :
      (most index : ℕ) (body : Option Bytes) (declared : Bytes) (w : World)
      → ltb_ℤ cfg.max_in_flight_bytes (pos (w.in_flight + most)) ≡ false
      → (after (append_limited sum_hex cfg s most index body declared) w).in_flight
        ≡ (if comes_to_submit most body w then w.in_flight else w.in_flight + most)
  unfolding append_limited acquire_weight read_body
  append_weight most index none declared w fits = ground arith
  append_weight most index (some body) declared w fits = ground (
    arith,
    length-take (most + 1) body,
    submit_read-Weight w.in_flight most index (take (most + 1) body) declared
        (record w { in_flight = w.in_flight + most }) refl,
  )
