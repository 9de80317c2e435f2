-- ===== src/Upload/Instant/References.antt =====
-- CheckExists and the reference counts.
use fileupload.Store.Counted.{get_blob_by_sha-Counted, new_id-Counted, Counted}
use fileupload.Domain.{err, ok, ContentBlob, Result, FileMetadata}
use fileupload.Upload.Instant.{
  instant_file, check_exists, link_file, instant_upload, incr_with_rollback, link_found,
}
use fileupload.Meta.Quota.{upsert, release}
use fileupload.World.Keeps.{Keeps-pure, Keeps-gets, Keeps-bind, keeps_rules, Keeps}
use fileupload.Base.{none, some, Option, pos, negsuc, arith, ℤ, List, Bytes}
use fileupload.Upload.Config.{UploadConfig, release_namespace, reserve_namespace}
use fileupload.Store.Quota.{release_namespace_reservation, reserve_namespace_bytes}
use fileupload.Store.{decr_blob_ref, incr_blob_ref, put_file}
use fileupload.Store.Integrity.{
  put_file-IsCounted, decr_blob_ref-IsCounted, incr_blob_ref-HasSpare, HasSpare, Outcome, IsCounted,
}
use fileupload.World.{
  ignore, clean_up, or_else, continue, gets, after, result, Exec, Reservation, Db, World,
}

-- Reservations are in a table of their own.
with_reservations :
    (d : Db) (rs : List Reservation) → IsCounted d → IsCounted (record d { reservations = rs })
with_reservations d rs h = record { keyed = h.keyed; covered = h.covered }

pub release_namespace-Counted : (id : Bytes) → Keeps Counted (release_namespace id)
unfolding release_namespace release_namespace_reservation
release_namespace-Counted id = record {
  from = λ w h. ground (arith, with_reservations w.db (release id w.db.reservations) h);
}

pub reserve_namespace_bytes-Counted :
    (ns id : Bytes) (n quota : ℤ) → Keeps Counted (reserve_namespace_bytes ns id n quota)
unfolding reserve_namespace_bytes
reserve_namespace_bytes-Counted ns id (negsuc n) quota = record { from = λ w h. h }
reserve_namespace_bytes-Counted ns id (pos n) quota = record {
  from = λ w h. ground (
    arith,
    with_reservations w.db
        (upsert (record { reservation_id = id; namespace = ns; bytes = n }) w.db.reservations) h,
  );
}

pub reserve_namespace-Counted :
    (cfg : UploadConfig) (id ns : Bytes) (n : ℤ) → Keeps Counted (reserve_namespace cfg id ns n)
unfolding reserve_namespace
reserve_namespace-Counted cfg id ns n = search (keeps_rules, reserve_namespace_bytes-Counted)

pub roll_back-Counted :
    {A : Type 0} (sha : Bytes) (r : Result A) (w : World)
    → Outcome IsCounted (HasSpare sha) r w.db
    → Counted (after (clean_up r (ignore (decr_blob_ref sha))) w)
roll_back-Counted sha (ok a) w h = h
roll_back-Counted sha (err e) w h = decr_blob_ref-IsCounted sha w h

-- A row that takes up the spare reference, or gives it back where it cannot be written.
pub put_or_decr-Counted :
    (f : FileMetadata) (w : World)
    → HasSpare f.sha256 w.db
    → Counted (after (or_else (put_file f) (ignore (decr_blob_ref f.sha256))) w)
put_or_decr-Counted f w h =
    roll_back-Counted f.sha256 (result (put_file f) w) (after (put_file f) w)
      (put_file-IsCounted f w h)

after_incr-Counted :
    {A : Type 0} (sha : Bytes) (r : Result (Unit {0})) (body : Exec A) (w : World)
    → ((v : World) → HasSpare sha v.db → Counted (after body v))
    → Outcome (HasSpare sha) IsCounted r w.db
    → Counted (after (continue r (λ _. body)) w)
after_incr-Counted sha (ok a) body w keep h = keep w h
after_incr-Counted sha (err e) body w keep h = h

pub incr_with_rollback-Counted :
    (f : FileMetadata) → Keeps Counted (incr_with_rollback f.sha256 (put_file f))
unfolding incr_with_rollback
incr_with_rollback-Counted f = record {
  from = λ w h.
      after_incr-Counted f.sha256 (result (incr_blob_ref f.sha256) w)
        (or_else (put_file f) (ignore (decr_blob_ref f.sha256))) (after (incr_blob_ref f.sha256) w)
        (put_or_decr-Counted f) (incr_blob_ref-HasSpare f.sha256 w h);
}

link_file-Counted :
    (id sha ns name : Bytes) (blob : ContentBlob) → Keeps Counted (link_file id sha ns name blob)
unfolding link_file
link_file-Counted id sha ns name blob =
    Keeps-bind (gets (λ w. w.now)) _ (Keeps-gets (λ w. w.now)) λ now.
      Keeps-bind _ _ (incr_with_rollback-Counted (instant_file id sha ns name blob now))
        λ _. Keeps-pure _

instant_upload-Counted :
    (cfg : UploadConfig) (sha ns name : Bytes) (blob : ContentBlob)
    → Keeps Counted (instant_upload cfg sha ns name blob)
unfolding instant_upload
instant_upload-Counted cfg sha ns name blob = search (
  keeps_rules, new_id-Counted, reserve_namespace-Counted, release_namespace-Counted,
  link_file-Counted,
)

found-Counted :
    (cfg : UploadConfig) (sha ns name : Bytes) (found : Option ContentBlob)
    → Keeps Counted (link_found cfg sha ns name found)
unfolding link_found
found-Counted cfg sha ns name none = search keeps_rules
found-Counted cfg sha ns name (some blob) = instant_upload-Counted cfg sha ns name blob

pub check_exists-Counted :
    (cfg : UploadConfig) (sha ns name : Bytes) → Keeps Counted (check_exists cfg sha ns name)
unfolding check_exists
check_exists-Counted cfg sha ns name = search (keeps_rules, get_blob_by_sha-Counted, found-Counted)

-- Whatever backend call fails, CheckExists leaves no digest with more files than its blob counts,
-- if there was none before.
check_exists-IsCounted :
    (cfg : UploadConfig) (sha ns name : Bytes) (w : World)
    → IsCounted w.db
    → IsCounted (after (check_exists cfg sha ns name) w).db
check_exists-IsCounted cfg sha ns name w h = (check_exists-Counted cfg sha ns name).from w h
