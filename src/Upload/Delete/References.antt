-- ===== src/Upload/Delete/References.antt =====
-- DeleteFile and the reference counts.
use fileupload.Storage.LocalFs.{data_dir}
use fileupload.Store.Integrity.{delete_file-HasSpare, IsCounted, HasSpare, decr_blob_ref-IsCounted}
use fileupload.World.Keeps.{Keeps-pure, keeps_rules, Keeps-ignore, Keeps}
use fileupload.Store.{get_file, delete_file, decr_blob_ref}
use fileupload.Upload.Finalize.References.{Spare-Counted, Outcome-Post, Spare}
use fileupload.Store.Counted.{delete_object-Counted, get_blob_by_sha-Counted, Counted}
use fileupload.Domain.{backend, err, forbidden, ok, ContentBlob, Result, FileMetadata}
use fileupload.Meta.Files.{live_file}
use fileupload.Upload.Delete.{owned, delete_file_for, delete_row, drop_reference, remove_content}
use std.Path.{subst}
use fileupload.Base.{
  sym, refl, inr, inl, ◌==◌, ◌+◌, Bool-cases, none, some, true, false, is_empty, [], eq_iff, ◌∷◌,
  if◌then◌else◌, Option, ◌≡◌, Bool, List, Bytes, arith,
}
use fileupload.World.{pure, require, ◌>>=◌, ◌>>◌, World, after, result}
use fileupload.World.Triple.{Keeps-Triple, Triple-bind, Post, Triple}

-- the row of a file that is not in the recycle bin, in tables with the right counts
record IsLive (f : FileMetadata) (w : World) : Type 0 where
  row : live_file f.file_id w.db.files ≡ some f
  counts : Counted w

always-Post : {A : Type 0} (P : World → Type 0) (r : Result A) (w : World) → P w → Post P P r w
always-Post P (ok a) w h = h
always-Post P (err e) w h = h

Post-Counted : {A : Type 0} (r : Result A) (w : World) → Post Counted Counted r w → Counted w
Post-Counted (ok a) w h = h
Post-Counted (err e) w h = h

decr-Triple : (sha : Bytes) → Triple (Spare sha) Counted Counted (decr_blob_ref sha)
decr-Triple sha = record {
  from = λ w h.
      always-Post Counted (result (decr_blob_ref sha) w) (after (decr_blob_ref sha) w)
        (decr_blob_ref-IsCounted sha w h);
}

remove_content-Counted : (r : Result (Option ContentBlob)) → Keeps Counted (remove_content r)
unfolding remove_content
remove_content-Counted (ok (some b)) =
    Keeps-ignore _ (delete_object-Counted data_dir b.storage_path)
remove_content-Counted (ok none) = Keeps-pure tt
remove_content-Counted (err e) = Keeps-pure tt

drop_reference-Triple : (sha : Bytes) → Triple (Spare sha) Counted Counted (drop_reference sha)
unfolding drop_reference
drop_reference-Triple sha = Triple-bind (decr_blob_ref sha) _ (decr-Triple sha) λ n.
    Keeps-Triple _ (search (keeps_rules, get_blob_by_sha-Counted, remove_content-Counted))
      (λ w h. h)

drop_or_not-Triple :
    (sha : Bytes) (plain : Bool)
    → Triple (Spare sha) Counted Counted (if plain then pure tt else drop_reference sha)
drop_or_not-Triple sha true = record { from = λ w h. Spare-Counted sha w h }
drop_or_not-Triple sha false = drop_reference-Triple sha

delete_row-Triple : (f : FileMetadata) → Triple (IsLive f) Counted Counted (delete_row f)
unfolding delete_row
delete_row-Triple f =
    Triple-bind {Q = Spare f.sha256} (delete_file f.file_id) _
      (record {
        from = λ w h.
            Outcome-Post (HasSpare f.sha256) IsCounted (result (delete_file f.file_id) w)
              (after (delete_file f.file_id) w) (delete_file-HasSpare f.file_id f w h.row h.counts);
      })
      λ _. drop_or_not-Triple f.sha256 (is_empty f.sha256)

pub live_file-id :
    (id : Bytes) (fs : List FileMetadata) (f : FileMetadata)
    → live_file id fs ≡ some f
    → f.file_id ≡ id
unfolding live_file
live_file-id id [] f e = ground arith
live_file-id id (g ∷ fs) f e = ground (arith, eq_iff g.file_id id, live_file-id id fs f)

delete_owned-Counted :
    (f : FileMetadata) (mine : Bool) (w : World)
    → IsLive f w
    → Counted (after ((require mine forbidden >> pure f) >>= delete_row) w)
delete_owned-Counted f true w h =
    Post-Counted (result (delete_row f) w) (after (delete_row f) w) ((delete_row-Triple f).from w h)
delete_owned-Counted f false w h = h.counts

delete_found-Counted :
    (id ns : Bytes) (found : Option FileMetadata) (w : World)
    → live_file id w.db.files ≡ found
    → Counted w
    → Counted (after (owned ns found >>= delete_row) w)
unfolding owned
delete_found-Counted id ns none w e h = h
delete_found-Counted id ns (some f) w e h = delete_owned-Counted f (f.namespace == ns) w (record {
  row = subst (λ i. live_file i w.db.files ≡ some f) (sym (live_file-id id w.db.files f e)) e;
  counts = h;
})

pub get_file-answered :
    (id : Bytes) (w : World)
    → w.fails w.calls ≡ false
    → get_file id w ≡ (ok (live_file id w.db.files), record w { calls = w.calls + 1 })
unfolding get_file
get_file-answered id w h = rw h

pub get_file-failed :
    (id : Bytes) (w : World)
    → w.fails w.calls ≡ true
    → get_file id w ≡ (err backend, record w { calls = w.calls + 1 })
unfolding get_file
get_file-failed id w h = rw h

pub delete_file_for-Counted : (id ns : Bytes) → Keeps Counted (delete_file_for id ns)
unfolding delete_file_for
delete_file_for-Counted id ns = record {
  from = λ w h. elim (Bool-cases (w.fails w.calls)) [
    | inl down ↦ ground (arith, get_file-failed id w down, h)
    | inr up ↦ ground (
      arith,
      get_file-answered id w up,
      delete_found-Counted id ns (live_file id w.db.files) (record w { calls = w.calls + 1 }) refl
          h,
    )
  ];
}

-- Whatever backend call fails, DeleteFile leaves no digest with more files than its blob counts, if
-- there was none before.
delete_file-IsCounted :
    (id ns : Bytes) (w : World) → IsCounted w.db → IsCounted (after (delete_file_for id ns) w).db
delete_file-IsCounted id ns w h = (delete_file_for-Counted id ns).from w h
