-- ===== src/Examples/Batches.antt =====
-- The theorems on tokens, batches and submitted directories, applied in the office.

use fileupload.Upload.Trees.Ends.{IsRanked}
use fileupload.Batch.Copy.{copy_file_counts}
use fileupload.Upload.Submit.Content.{place_content_moves}
use fileupload.Batch.Totals.{batch_delete_total}
use fileupload.Upload.Submit.Foreign.{submit_dir_foreign}
use fileupload.Examples.Office.{office-IsCounted, hello, office, report}
use fileupload.Meta.Blobs.{count_of, blob_by_sha}
use fileupload.Domain.{ok, DirManifest, FileMetadata}
use fileupload.Storage.Paths.{resolve}
use fileupload.Storage.LocalFs.{object_at}
use fileupload.Meta.Files.{refs, has_id, live_file}
use fileupload.Upload.Submit.{root_row, place_content, submit_dir}
use fileupload.Ids.{new_id}
use fileupload.World.{result, after, World}
use fileupload.Base.{
  All, pos, map, sort_by, not, ◌&&◌, eq_iff, refl, length, true, some, if◌then◌else◌, arith, false,
  ◌+◌, ◌≡◌, none, [], Bytes, ◌==◌, bytes, List, ℕ, ◌∷◌,
}
use fileupload.Batch.{batch_delete, copy_file, BatchResult}
use fileupload.Auth.Rotation.{refresh_once, is_granted}
use fileupload.Auth.{Refresh, is_valid_at, answer_all, answer_refresh, AuthUser, Claims, JwtService}

abbrev ann : AuthUser
ann = record {
  id = bytes "u1";
  username = bytes "ann";
  password = bytes "secret";
  namespace = bytes "team";
  roles = [];
}

abbrev tokens : JwtService
tokens = record { users = ann ∷ []; expiry = 100; shared = true; used = [] }

abbrev of_ann : Claims
of_ann = record {
  token_type = bytes "refresh";
  user_id = bytes "u1";
  namespace = [];
  roles = none;
  token_id = bytes "r1";
  exp = some 2000;
}

abbrev request_at : ℕ → Bytes → Refresh
request_at t id = record {
  time = t;
  answers = true;
  claims = record of_ann { token_id = id };
  access_id = bytes "a2";
  refresh_id = bytes "r2";
}

abbrev as_stored : List AuthUser → List AuthUser
as_stored us = us

first_granted : is_granted (answer_refresh as_stored tokens (request_at 1000 (bytes "r1"))).0 ≡ true
unfolding ◌==◌ answer_refresh is_valid_at fileupload.Auth.refresh_token
first_granted = refl

refresh_once_example :
    is_granted
      (answer_refresh as_stored
        (answer_all as_stored
          (answer_refresh as_stored tokens (request_at 1000 (bytes "r1"))).1
          (request_at 1001 (bytes "r3") ∷ [])).1
        (request_at 1002 (bytes "r1"))).0
    ≡ false
refresh_once_example =
    refresh_once as_stored tokens (request_at 1000 (bytes "r1")) (request_at 1001 (bytes "r3") ∷ [])
      (request_at 1002 (bytes "r1")) first_granted refl refl (omega arith, tt)

report_live : live_file (bytes "f1") office.db.files ≡ some report
unfolding live_file ◌==◌
report_live = refl

fresh_drawn : result new_id office ≡ ok (bytes "p0000000000000008")
unfolding new_id
fresh_drawn = refl

fresh_free : has_id (bytes "p0000000000000008") office.db.files ≡ false
unfolding has_id ◌==◌
fresh_free = refl

copy_file_counts_example :
    let w' = after (copy_file [] (bytes "team") 1000 report) office in
    (refs (bytes "sha-hello") w'.db.files
      ≡ refs (bytes "sha-hello") office.db.files
        + (if report.sha256 == bytes "sha-hello" then 1 else 0))
    × (count_of (bytes "sha-hello") w'.db.blobs
        ≡ count_of (bytes "sha-hello") office.db.blobs
          + (if report.sha256 == bytes "sha-hello" && not (office.fails (office.calls + 1))
              then 1
              else 0))
copy_file_counts_example =
    copy_file_counts (bytes "f1") [] (bytes "team") (bytes "sha-hello") (bytes "p0000000000000008")
      1000 report office office-IsCounted report_live refl refl fresh_drawn fresh_free refl

office-IsRanked : All (IsRanked (λ id. 0)) office.db.files
office-IsRanked = (λ inside. ground (arith, inside), tt)

batch_delete_total_example :
    (r : BatchResult) × (result
        (batch_delete 2 (bytes "f1" ∷ bytes "f2" ∷ []) (bytes "team"))
        office
      ≡ ok r)
    × (r.success + r.failed ≡ length (bytes "f1" ∷ bytes "f2" ∷ []))
batch_delete_total_example =
    batch_delete_total (λ id. 0) 2 (bytes "f1" ∷ bytes "f2" ∷ []) (bytes "team") office
      office-IsRanked (omega arith, (omega arith, tt))

abbrev neighbour : FileMetadata
neighbour = record report { file_id = bytes "f9"; namespace = bytes "guests" }

abbrev shared_office : World
shared_office = record office { db = record office.db { files = report ∷ neighbour ∷ [] } }

abbrev docs : DirManifest
docs = record {
  name = bytes "docs";
  entries = record { path = bytes "a/report.txt"; file_id = bytes "f1" } ∷ [];
}

neighbour_live : live_file (bytes "f9") shared_office.db.files ≡ some neighbour
unfolding live_file ◌==◌
neighbour_live = refl

neighbour_foreign : neighbour.namespace == bytes "team" ≡ false
unfolding ◌==◌
neighbour_foreign = refl

submit_dir_foreign_example :
    live_file (bytes "f9") (after (submit_dir (bytes "team") docs) shared_office).db.files
    ≡ some neighbour
submit_dir_foreign_example =
    submit_dir_foreign (bytes "team") docs (bytes "f9") neighbour shared_office neighbour_live
      neighbour_foreign

hello_known : blob_by_sha (bytes "sha-hello") office.db.blobs ≡ some hello
unfolding blob_by_sha ◌==◌
hello_known = refl

hello_stored : object_at (bytes "team/s0-report.txt") office.disk ≡ some (bytes "hello")
unfolding object_at ◌==◌
hello_stored = refl

old_path : resolve (bytes "team/s0-report.txt") ≡ ok (bytes "team/s0-report.txt")
unfolding resolve ◌==◌
old_path = refl

new_path : resolve (bytes "team/docs/a/report.txt") ≡ ok (bytes "team/docs/a/report.txt")
unfolding resolve ◌==◌
new_path = refl

path_moves : hello.storage_path == bytes "team/docs/a/report.txt" ≡ false
unfolding ◌==◌
path_moves = refl

objects_differ : bytes "team/s0-report.txt" == bytes "team/docs/a/report.txt" ≡ false
unfolding ◌==◌
objects_differ = refl

place_content_moves_example :
    let w' = after (place_content (bytes "sha-hello") (bytes "team/docs/a/report.txt")) office in
    ((r : Bytes)
      → object_at r w'.disk ≡ (
          if bytes "team/s0-report.txt" == r
          then none
          else if bytes "team/docs/a/report.txt" == r
          then some (bytes "hello")
          else object_at r office.disk))
    × ((k : Bytes)
        → blob_by_sha k w'.db.blobs ≡ (
            if bytes "sha-hello" == k
            then some (record hello { storage_path = bytes "team/docs/a/report.txt" })
            else blob_by_sha k office.db.blobs))
    × (w'.db.files ≡ office.db.files)
place_content_moves_example =
    place_content_moves (bytes "sha-hello") (bytes "team/docs/a/report.txt") hello
      (bytes "team/s0-report.txt") (bytes "team/docs/a/report.txt") (bytes "hello") office
      (λ n. refl) refl hello_known path_moves old_path new_path objects_differ hello_stored

-- the directory is made, and holds the report
submitted :
    (result (submit_dir (bytes "team") docs) office
      ≡ ok (root_row (bytes "team") docs (bytes "p0000000000000008") 1000))
    × (live_file (bytes "f1") (after (submit_dir (bytes "team") docs) office).db.files
        ≡ some
            (record report { parent_id = bytes "p0000000000000009"; path = bytes "a/report.txt" }))
    × (object_at
          (bytes "team/docs/a/report.txt")
          (after (submit_dir (bytes "team") docs) office).disk
        ≡ some (bytes "hello"))
unfolding submit_dir fileupload.Upload.Names.is_safe_relative_path ◌==◌ fileupload.Store.get_file
    live_file new_id fileupload.Store.put_file fileupload.Meta.Files.insert_file has_id
    fileupload.Base.sort_by fileupload.Store.get_blob_by_sha fileupload.Store.reparent_file
    blob_by_sha object_at fileupload.Meta.Files.set_parent_path
    fileupload.Storage.LocalFs.remove_object fileupload.Storage.LocalFs.put_object
submitted = (refl, refl, refl)
