-- ===== src/Upload/Service.antt =====
-- internal/domain/upload.go, trash.go and batch.go: a run of the upload service and of the batch service, as
-- the requests that they serve one after the other. The recursions over directories share their fuel.
pub mod Tables
pub mod Sessions
pub mod Trees
pub mod Submit
pub mod Runs
use fileupload.Batch.{batch_tag, batch_move, batch_delete}
use fileupload.Upload.Submit.{submit_dir}
use fileupload.Upload.Trees.Bin.{trash}
use fileupload.Upload.Trash.{restore_from_trash}
use fileupload.Upload.Move.{move_file}
use fileupload.Upload.Delete.{rename, delete_file_for}
use fileupload.Upload.Finalize.{abort_for_namespace, finalize_for_namespace}
use fileupload.Upload.Append.{append_chunk_for_namespace}
use fileupload.Upload.Session.{open_session}
use fileupload.Upload.Instant.{check_exists}
use fileupload.Upload.Config.{UploadConfig}
use fileupload.Domain.{DirManifest, CompressionFormat, Result}
use fileupload.Base.{ℕ, [], ◌∷◌, Bytes, ℤ, Option, List}
use fileupload.World.{World, after}

-- what a client asks of the service; the namespace is the second name, or the first of a new file
pub data Request : Type 0 where
  ask_exists : Bytes → Bytes → Bytes → Request
  open_upload : Bytes → ℤ → CompressionFormat → ℤ → Bytes → Bytes → Request
  append_chunk : Bytes → Bytes → ℤ → Option Bytes → Bytes → Request
  finish_upload : Bytes → Bytes → Request
  abort_upload : Bytes → Bytes → Request
  delete_one : Bytes → Bytes → Request
  rename_one : Bytes → Bytes → Bytes → Bytes → Request
  move_one : Bytes → Bytes → Bytes → Request
  restore_one : Bytes → Bytes → Request
  trash_one : Bytes → Bytes → Request
  submit : DirManifest → Bytes → Request
  delete_many : List Bytes → Bytes → Request
  move_many : List Bytes → Bytes → Bytes → Request
  tag_many : List Bytes → List Bytes → Bytes → Request

module _ (sum_hex : Bytes → Bytes) (decompress : CompressionFormat → Bytes → Result (Option Bytes))
    (cfg : UploadConfig) (fuel : ℕ) where
  unfoldable pub serve : Request → World → World
  serve (ask_exists sha ns name) w = after (check_exists cfg sha ns name) w
  serve (open_upload sha len comp chunk ns name) w =
      after (open_session cfg sha len comp chunk ns name) w
  serve (append_chunk id ns index body declared) w =
      after (append_chunk_for_namespace sum_hex cfg id ns index body declared) w
  serve (finish_upload id ns) w = after (finalize_for_namespace sum_hex decompress cfg id ns) w
  serve (abort_upload id ns) w = after (abort_for_namespace id ns) w
  serve (delete_one id ns) w = after (delete_file_for id ns) w
  serve (rename_one id name path ns) w = after (rename id name path ns) w
  serve (move_one id target ns) w = after (move_file id target ns) w
  serve (restore_one id ns) w = after (restore_from_trash id ns) w
  serve (trash_one id ns) w = after (trash fuel id ns) w
  serve (submit m ns) w = after (submit_dir ns m) w
  serve (delete_many ids ns) w = after (batch_delete fuel ids ns) w
  serve (move_many ids target ns) w = after (batch_move ids target ns) w
  serve (tag_many ids tags ns) w = after (batch_tag ids tags ns) w

  unfoldable pub serve_all : List Request → World → World
  unfolding serve
  serve_all [] w = w
  serve_all (q ∷ qs) w = serve_all qs (serve q w)
