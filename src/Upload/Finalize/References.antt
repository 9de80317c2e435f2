-- ===== src/Upload/Finalize/References.antt =====
-- Finalize and the reference counts: whatever fails on the way, no digest ends up with more files
-- than its blob counts.
use fileupload.Upload.Chunks.{by_index}
use fileupload.Store.Sessions.{list_chunks}
use fileupload.Upload.Config.{UploadConfig}
use fileupload.Upload.Finalize.{complete, expect_sha, unpack, finalize, finalize_claimed, assemble}
use fileupload.Ids.{new_id}
use fileupload.Store.{decr_blob_ref, acquire_blob, put_file}
use fileupload.World.Triple.{Keeps-Triple, Triple-bind, Triple-Keeps, Post, Triple-or_else, Triple}
use fileupload.Store.Integrity.{
  Outcome, HasSpare-IsCounted, IsCounted, decr_blob_ref-IsCounted, put_file-IsCounted,
  acquire_blob-HasSpare, HasSpare,
}
use fileupload.Upload.Append.{part_path}
use fileupload.Storage.LocalFs.{data_dir, Root, open_object, temp_dir, delete_object}
use fileupload.Upload.Instant.References.{release_namespace-Counted, reserve_namespace-Counted}
use fileupload.Base.{
  sort_by, true, false, Bool, if◌then◌else◌, arith, Option, [], none, ◌∷◌, some, List, Bytes,
}
use fileupload.Store.Counted.{
  claim_session_finalizing-Counted, write-Counted, delete_object-Counted, open_object-Counted,
  delete_session-Counted, Counted, touch_session-Counted, list_chunks-Counted, new_id-Counted,
}
use fileupload.Domain.{
  CompressionFormat, FileMetadata, ContentBlob, UploadSession, err, ok, ChunkInfo, Result,
}
use fileupload.Upload.Commit.{
  commit_stream, check_content, file_of, blob_of, record_content, merge_rest, remove_parts,
  merge_parts,
}
use fileupload.World.Keeps.{
  Keeps-defer, Keeps-lift, Keeps-or_else, Keeps-gets, Keeps-attempt, Keeps-ignore, Keeps-bind,
  Keeps-pure, Keeps, keeps_rules,
}
use fileupload.World.{gets, Db, attempt, ignore, pure, result, or_else, after, Exec, World}

ruleset finalize_rules = (
  keeps_rules, new_id-Counted, list_chunks-Counted, touch_session-Counted, delete_session-Counted,
  open_object-Counted, delete_object-Counted, write-Counted, reserve_namespace-Counted,
  release_namespace-Counted,
)

merge_rest-Counted :
    (part : Result Bytes) (more : Exec (Option Bytes))
    → Keeps Counted more
    → Keeps Counted (merge_rest part more)
unfolding merge_rest
merge_rest-Counted (err e) more k = Keeps-pure none
merge_rest-Counted (ok part) more k = Keeps-bind more _ k (λ rest. Keeps-pure _)

merge_parts-Counted : (id : Bytes) (cs : List ChunkInfo) → Keeps Counted (merge_parts id cs)
unfolding merge_parts
merge_parts-Counted id [] = Keeps-pure (some [])
merge_parts-Counted id (c ∷ cs) =
    Keeps-bind (attempt (open_object temp_dir (part_path id c.index) 0 0)) _
      (Keeps-attempt _ (open_object-Counted temp_dir (part_path id c.index) 0 0))
      (λ part. merge_rest-Counted part (merge_parts id cs) (merge_parts-Counted id cs))

pub remove_parts-Counted : (id : Bytes) (cs : List ChunkInfo) → Keeps Counted (remove_parts id cs)
unfolding remove_parts
remove_parts-Counted id [] = Keeps-pure tt
remove_parts-Counted id (c ∷ cs) =
    Keeps-bind (ignore (delete_object temp_dir (part_path id c.index))) _
      (Keeps-ignore _ (delete_object-Counted temp_dir (part_path id c.index)))
      (λ _. remove_parts-Counted id cs)

-- the content's digest has a reference to spare
abbrev pub Spare : Bytes → World → Type 0
Spare sha w = HasSpare sha w.db

pub delete_object-Spare :
    (sha : Bytes) (root : Root) (path : Bytes)
    → Keeps (Spare sha) (ignore (delete_object root path))
unfolding delete_object
delete_object-Spare sha data_dir path = record { from = λ w h. ground arith }
delete_object-Spare sha temp_dir path = record { from = λ w h. ground arith }

pub Outcome-Post :
    {A : Type 0} (P Q : Db → Type 0) (r : Result A) (w : World)
    → Outcome P Q r w.db
    → Post (λ v. P v.db) (λ v. Q v.db) r w
Outcome-Post P Q (ok a) w h = h
Outcome-Post P Q (err e) w h = h

-- A reference is gained, or the file that was to be its content goes.
acquire-Spare :
    (b : ContentBlob) (path : Bytes)
    → Triple Counted
        (Spare b.sha256)
        Counted
        (or_else (acquire_blob b) (ignore (delete_object data_dir path)))
acquire-Spare b path =
    Triple-or_else {Q = Spare b.sha256} {R = Counted} (acquire_blob b)
      (ignore (delete_object data_dir path))
      (record {
        from = λ w h.
            Outcome-Post (HasSpare b.sha256) IsCounted (result (acquire_blob b) w)
              (after (acquire_blob b) w) (acquire_blob-HasSpare b w h);
      })
      (delete_object-Counted data_dir path).from

-- The row takes the spare reference up, or it is given back.
put_or_decr-Triple :
    (f : FileMetadata)
    → Triple
        (Spare f.sha256)
        Counted
        Counted
        (or_else (put_file f) (ignore (decr_blob_ref f.sha256)))
put_or_decr-Triple f =
    Triple-or_else {Q = Counted} {R = Spare f.sha256} (put_file f) (ignore (decr_blob_ref f.sha256))
      (record {
        from = λ w h.
            Outcome-Post IsCounted (HasSpare f.sha256) (result (put_file f) w)
              (after (put_file f) w) (put_file-IsCounted f w h);
      })
      (decr_blob_ref-IsCounted f.sha256)

drop_duplicate-Spare :
    (sha path : Bytes) (inserted : Bool)
    → Keeps (Spare sha) (if inserted then pure tt else ignore (delete_object data_dir path))
drop_duplicate-Spare sha path true = Keeps-pure tt
drop_duplicate-Spare sha path false = delete_object-Spare sha data_dir path

pub Spare-Counted : (sha : Bytes) (w : World) → Spare sha w → Counted w
Spare-Counted sha w = HasSpare-IsCounted sha w.db

module _ (sum_hex : Bytes → Bytes) where
  record_content-Counted :
      (s : UploadSession) (path content : Bytes)
      → Keeps Counted (record_content sum_hex s path content)
  unfolding record_content
  record_content-Counted s path content = Keeps-bind new_id _ new_id-Counted λ id.
      Keeps-bind (gets (λ w. w.now)) _ (Keeps-gets (λ w. w.now)) λ now.
        Triple-Keeps _
          (Triple-bind _ _ (acquire-Spare (blob_of sum_hex path content now) path) λ got.
            Triple-bind {Q = Spare (sum_hex content)} _ _
              (Keeps-Triple _ (drop_duplicate-Spare (sum_hex content) path got.1)
                (Spare-Counted (sum_hex content)))
              λ _.
                Triple-bind _ _ (put_or_decr-Triple (file_of sum_hex s id content now))
                  λ _. Keeps-Triple _ (Keeps-pure _) (λ w h. h))
          (λ w h. h)

  check_content-Counted :
      (cfg : UploadConfig) (s : UploadSession) (path content : Bytes)
      → Keeps Counted (check_content sum_hex cfg s path content)
  unfolding check_content
  check_content-Counted cfg s path content = search (finalize_rules, Keeps-or_else)

  pub commit_stream-Counted :
      (cfg : UploadConfig) (s : UploadSession) (path : Bytes) (stream : Option Bytes)
      → Keeps Counted (commit_stream sum_hex cfg s path stream)
  unfolding commit_stream
  commit_stream-Counted cfg s path none = search finalize_rules
  commit_stream-Counted cfg s path (some content) =
      search (finalize_rules, check_content-Counted, record_content-Counted)

module _ (sum_hex : Bytes → Bytes)
    (decompress : CompressionFormat → Bytes → Result (Option Bytes)) where
  unpack-Counted :
      (comp : CompressionFormat) (merged : Option Bytes)
      → Keeps Counted (unpack sum_hex decompress comp merged)
  unpack-Counted comp none = search keeps_rules
  unpack-Counted comp (some packed) = search keeps_rules

  assemble-Counted :
      (cfg : UploadConfig) (s : UploadSession) (chunks : List ChunkInfo)
      → Keeps Counted (assemble sum_hex decompress cfg s chunks)
  unfolding assemble
  assemble-Counted cfg s chunks =
      search (finalize_rules, merge_parts-Counted, unpack-Counted, commit_stream-Counted)

  complete-Counted :
      (cfg : UploadConfig) (s : UploadSession) (chunks : List ChunkInfo)
      → Keeps Counted (complete sum_hex decompress cfg s chunks)
  unfolding complete
  complete-Counted cfg s chunks = search (finalize_rules, assemble-Counted)

  finalize_claimed-Counted :
      (cfg : UploadConfig) (s : UploadSession)
      → Keeps Counted (finalize_claimed sum_hex decompress cfg s)
  unfolding finalize_claimed
  finalize_claimed-Counted cfg s =
      Keeps-bind (list_chunks s.session_id) _ (list_chunks-Counted s.session_id) λ chunks.
        Keeps-bind _ _ (Keeps-lift _) λ _.
          Keeps-defer _ _
            (remove_parts-Counted (expect_sha chunks s).session_id (sort_by by_index chunks))
            (complete-Counted cfg (expect_sha chunks s) chunks)

  pub finalize-Counted :
      (cfg : UploadConfig) (id : Bytes) → Keeps Counted (finalize sum_hex decompress cfg id)
  unfolding finalize
  finalize-Counted cfg id =
      search (finalize_rules, claim_session_finalizing-Counted, finalize_claimed-Counted)
