-- ===== src/Examples/Uploads.antt =====
-- The theorems on uploads, applied in the office.
use fileupload.Upload.Service.Runs.{serve_all-IsCounted}
use fileupload.Upload.Service.{delete_one, delete_many, restore_one, finish_upload, serve_all}
use fileupload.Examples.Office.{
  notes, unpacked, digest_of, claimed_upload, first_chunk, upload, office-IsCounted, settings,
  second_chunk, office,
}
use fileupload.Meta.Quota.{current_bytes}
use fileupload.Upload.Append.Release.{append_weight, comes_to_submit}
use fileupload.Upload.Session.{get_offset_for_namespace, get_status_for_namespace}
use fileupload.Upload.Chunks.Plan.{cut, shape}
use fileupload.Upload.Exclusive.{finalize_exclusive}
use fileupload.Upload.Chunks.Accept.{validate_iff}
use fileupload.Store.Sessions.{update_offset, claim_session_finalizing}
use fileupload.Upload.Isolation.{refusal, session_isolation, called, IsForeign}
use fileupload.Upload.Chunks.{by_index, validate_uploaded_chunks}
use fileupload.Meta.Sessions.{total_size}
use fileupload.Upload.Append.{append_chunk_at_offset, append_chunk_for_namespace, append_limited}
use fileupload.Upload.Names.{base_name}
use fileupload.Store.Quota.{reserve_namespace_bytes}
use fileupload.Ids.{new_id}
use fileupload.Storage.Paths.{resolve}
use fileupload.Store.{get_blob_by_sha, set_files, put_file, acquire_row, acquire_blob}
use fileupload.Storage.LocalFs.{copy_into, write}
use fileupload.Upload.Commit.{record_content, check_content, commit_stream}
use fileupload.Upload.Commit.Content.{commit_faithful, Commits}
use fileupload.Upload.Finalize.{abort_for_namespace, finalize_for_namespace, finalize}
use fileupload.Meta.Blobs.{blob_by_sha}
use fileupload.Meta.Files.{live_file, insert_file, has_id, refs}
use fileupload.Store.Integrity.{IsCounted}
use fileupload.Upload.Config.{reserve_namespace}
use fileupload.Domain.{session_state, err, ok}
use fileupload.Base.{
  ◌-◌, ◌≢◌, ◌==◌, length, ◌+◌, eqb, List, ◌≤◌, ltb_ℤ, ◌<◌, Bool, sort_by, map, ◌↔◌, true,
  if◌then◌else◌, ◌≡◌, refl, eq_iff, some, Option, none, false, ◌++◌, [], pos, Bytes, ◌∷◌, arith,
  bytes,
}
use fileupload.World.{result, after}

notes_committed :
    result
      (commit_stream digest_of settings upload (bytes "team/s1-notes.txt") (some (bytes "abcdef")))
      office
    ≡ ok notes
unfolding commit_stream check_content record_content write copy_into acquire_blob acquire_row
    put_file set_files resolve new_id reserve_namespace reserve_namespace_bytes base_name
    insert_file has_id blob_by_sha fileupload.Base.◌==◌ fileupload.Base.◌+ℤ◌ fileupload.Base.◌-ℤ◌
    fileupload.Meta.Files.used_bytes fileupload.Meta.Quota.reserved_bytes
    fileupload.Meta.Quota.current_bytes
notes_committed = refl

commit_faithful_example : Commits digest_of settings upload (some (bytes "abcdef")) notes
commit_faithful_example =
    commit_faithful digest_of settings upload (bytes "team/s1-notes.txt") (some (bytes "abcdef"))
      office notes notes_committed

validate_iff_example :
    (validate_uploaded_chunks (second_chunk ∷ first_chunk ∷ []) (pos 6) (pos 4) true ≡ ok tt)
    ↔ (map shape (sort_by by_index (second_chunk ∷ first_chunk ∷ [])) ≡ cut 6 0 6 4)
validate_iff_example =
    validate_iff (second_chunk ∷ first_chunk ∷ []) 6 4 (omega arith) (omega arith) (omega arith)

chunks_pass :
    validate_uploaded_chunks (second_chunk ∷ first_chunk ∷ []) (pos 6) (pos 4) true ≡ ok tt
unfolding validate_uploaded_chunks sort_by
chunks_pass = refl

upload_claimed : result (claim_session_finalizing (bytes "s1")) office ≡ ok claimed_upload
unfolding claim_session_finalizing fileupload.Store.Sessions.get_session
    fileupload.Meta.Sessions.live_session fileupload.Base.◌==◌
upload_claimed = refl

finalize_exclusive_example :
    let w' = after (claim_session_finalizing (bytes "s1")) office in
    (finalize digest_of unpacked settings (bytes "s1") w' ≡ (err session_state, called w'))
    × (append_chunk_for_namespace digest_of settings
          (bytes "s1")
          (bytes "team")
          (pos 0)
          (some (bytes "abcd"))
          []
          w'
        ≡ (err session_state, called w'))
finalize_exclusive_example =
    finalize_exclusive digest_of unpacked settings (bytes "s1") claimed_upload 0
      (some (bytes "abcd")) [] office upload_claimed refl

upload-IsForeign : IsForeign (bytes "s1") (bytes "rivals") office
unfolding fileupload.Meta.Sessions.live_session fileupload.Base.◌==◌
upload-IsForeign = record { session = upload; found = refl; foreign = refl }

session_isolation_example :
    (append_chunk_for_namespace digest_of settings
        (bytes "s1")
        (bytes "rivals")
        (pos 0)
        (some (bytes "abcd"))
        []
        office
      ≡ (err (refusal office), called office))
    × (append_chunk_at_offset digest_of settings
          (bytes "s1")
          (bytes "rivals")
          (pos 4)
          (some (bytes "abcd"))
          []
          office
        ≡ (err (refusal office), called office))
    × (finalize_for_namespace digest_of unpacked settings (bytes "s1") (bytes "rivals") office
        ≡ (err (refusal office), called office))
    × (abort_for_namespace (bytes "s1") (bytes "rivals") office
        ≡ (err (refusal office), called office))
    × (get_status_for_namespace (bytes "s1") (bytes "rivals") office
        ≡ (err (refusal office), called office))
    × (get_offset_for_namespace (bytes "s1") (bytes "rivals") office
        ≡ (err (refusal office), called office))
session_isolation_example =
    session_isolation digest_of unpacked settings (bytes "s1") (bytes "rivals") (pos 0) (pos 4)
      (some (bytes "abcd")) [] office upload-IsForeign

append_weight_example :
    (after
      (append_limited digest_of settings upload 4 0 (some (bytes "abcdef")) [])
      office).in_flight
    ≡ (if comes_to_submit digest_of settings upload 4 (some (bytes "abcdef")) office then 0 else 4)
append_weight_example =
    append_weight digest_of settings upload 4 0 (some (bytes "abcdef")) [] office refl

serve_all-IsCounted_example :
    IsCounted
      (serve_all digest_of unpacked settings 3
        (finish_upload (bytes "s1") (bytes "team")
          ∷ delete_many (bytes "f1" ∷ []) (bytes "team")
          ∷ restore_one (bytes "f1") (bytes "team")
          ∷ delete_one (bytes "f1") (bytes "team")
          ∷ [])
        office).db
serve_all-IsCounted_example =
    serve_all-IsCounted digest_of unpacked settings 3
      (finish_upload (bytes "s1") (bytes "team")
        ∷ delete_many (bytes "f1" ∷ []) (bytes "team")
        ∷ restore_one (bytes "f1") (bytes "team")
        ∷ delete_one (bytes "f1") (bytes "team")
        ∷ [])
      office office-IsCounted
