-- ===== src/Upload/Service/Runs.antt =====
-- The reference counts over a whole run of the service.
use fileupload.Upload.Service.Submit.{batch_tag-Counted, submit_dir-Counted}
use fileupload.Upload.Service.Trees.{batch_move-Counted, batch_delete-Counted, trash-Counted}
use fileupload.Upload.Service.Tables.{restore_from_trash-Counted, move_file-Counted, rename-Counted}
use fileupload.Upload.Delete.References.{delete_file_for-Counted}
use fileupload.Upload.Service.Sessions.{
  abort_for-Counted, finalize_for-Counted, append_chunk-Counted, open_session-Counted,
}
use fileupload.Upload.Instant.References.{check_exists-Counted}
use fileupload.Store.Integrity.{IsCounted}
use fileupload.Upload.Config.{UploadConfig}
use fileupload.Domain.{Result, CompressionFormat}
use fileupload.Upload.Service.{
  serve_all, serve, Request, ask_exists, open_upload, append_chunk, finish_upload, abort_upload,
  delete_one, rename_one, move_one, restore_one, trash_one, submit, delete_many, move_many,
  tag_many,
}
use fileupload.Base.{ℕ, Option, Bytes, List, ◌∷◌, []}
use fileupload.World.{World}

module _ (sum_hex : Bytes → Bytes) (decompress : CompressionFormat → Bytes → Result (Option Bytes))
    (cfg : UploadConfig) (fuel : ℕ) where
  serve-IsCounted :
      (q : Request) (w : World)
      → IsCounted w.db
      → IsCounted (serve sum_hex decompress cfg fuel q w).db
  unfolding serve
  serve-IsCounted (ask_exists sha ns name) w h = (check_exists-Counted cfg sha ns name).from w h
  serve-IsCounted (open_upload sha len comp chunk ns name) w h =
      (open_session-Counted cfg sha len comp chunk ns name).from w h
  serve-IsCounted (append_chunk id ns index body declared) w h =
      (append_chunk-Counted sum_hex cfg id ns index body declared).from w h
  serve-IsCounted (finish_upload id ns) w h =
      (finalize_for-Counted sum_hex decompress cfg id ns).from w h
  serve-IsCounted (abort_upload id ns) w h = (abort_for-Counted id ns).from w h
  serve-IsCounted (delete_one id ns) w h = (delete_file_for-Counted id ns).from w h
  serve-IsCounted (rename_one id name path ns) w h = (rename-Counted id name path ns).from w h
  serve-IsCounted (move_one id target ns) w h = (move_file-Counted id target ns).from w h
  serve-IsCounted (restore_one id ns) w h = (restore_from_trash-Counted id ns).from w h
  serve-IsCounted (trash_one id ns) w h = (trash-Counted fuel id ns).from w h
  serve-IsCounted (submit m ns) w h = (submit_dir-Counted ns m).from w h
  serve-IsCounted (delete_many ids ns) w h = (batch_delete-Counted fuel ids ns).from w h
  serve-IsCounted (move_many ids target ns) w h = (batch_move-Counted ids target ns).from w h
  serve-IsCounted (tag_many ids tags ns) w h = (batch_tag-Counted ids tags ns).from w h

  -- Over any run of requests, whichever backend calls fail, no digest ever has more files than its blob
  -- counts, if none had at the start. So content that a file names is never taken for unreferenced.
  -- The requests are the pre-check, the upload operations, SubmitDir, the deletion, renaming and moving of a
  -- file, Trash and RestoreFromTrash, and BatchDelete, BatchMove and BatchTag, one after the other.
  pub serve_all-IsCounted :
      (qs : List Request) (w : World)
      → IsCounted w.db
      → IsCounted (serve_all sum_hex decompress cfg fuel qs w).db
  unfolding serve_all
  serve_all-IsCounted [] w h = h
  serve_all-IsCounted (q ∷ qs) w h =
      serve_all-IsCounted qs (serve sum_hex decompress cfg fuel q w) (serve-IsCounted q w h)
