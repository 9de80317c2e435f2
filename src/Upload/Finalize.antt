-- ===== src/Upload/Finalize.antt =====
-- internal/domain/upload.go: Finalize, FinalizeForNamespace, Abort and AbortForNamespace.
pub mod References
use fileupload.Upload.Names.{safe_storage_name, flat_path}
use fileupload.Ids.{new_id}
use fileupload.Upload.Chunks.{by_index, validate_uploaded_chunks}
use fileupload.Upload.Config.{release_namespace, UploadConfig}
use fileupload.Store.Sessions.{
  touch_session, delete_session, claim_session_finalizing, list_chunks, get_session,
}
use fileupload.Upload.Session.{session_for_namespace, found_session}
use fileupload.Upload.Commit.{merge_parts, commit_stream, remove_parts}
use fileupload.Domain.{
  unset, err, FileMetadata, comp_none, ok, UploadSession, ChunkInfo, CompressionFormat, Result,
}
use fileupload.Base.{
  ◌++◌, pos, ltb_ℤ, sort_by, ◌∷◌, none, is_empty, [], some, if◌then◌else◌, false, true, Bool, bytes,
  Option, List, Bytes,
}
use fileupload.World.{defer, ignore, lift, attempt, pure, Exec, ◌>>=◌, ◌>>◌}

-- the SHA-256 of nothing
abbrev pub empty_sha : Bytes
empty_sha = bytes "e3b0c44298fc1c149afbf4c8996fb92427ae41e4649b934ca495991b7852b855"

abbrev pub is_uncompressed : CompressionFormat → Bool
is_uncompressed comp_none = true
is_uncompressed _ = false

-- compression != CompNone && compression != ""
abbrev pub needs_decompression : CompressionFormat → Bool
needs_decompression comp_none = false
needs_decompression unset = false
needs_decompression _ = true

-- the digest that is compared at the end; no chunk and no declared digest means empty content
abbrev pub expect_sha : List ChunkInfo → UploadSession → UploadSession
expect_sha [] s = if is_empty s.sha256 then record s { sha256 = empty_sha } else s
expect_sha (c ∷ cs) s = s

module _ (sum_hex : Bytes → Bytes)
    (decompress : CompressionFormat → Bytes → Result (Option Bytes)) where
  abbrev pub unpack : CompressionFormat → Option Bytes → Exec (Option Bytes)
  unpack comp none = pure none
  unpack comp (some packed) =
      if needs_decompression comp then lift (decompress comp packed) else pure (some packed)

  -- the three stages, between which the parts are on disk
  unfoldable pub assemble : UploadConfig → UploadSession → List ChunkInfo → Exec FileMetadata
  unfolding commit_stream
  assemble cfg s chunks = do
    merged ← merge_parts s.session_id (sort_by by_index chunks)
    content ← unpack s.compression merged
    name ← (if is_empty s.file_name then new_id else pure s.file_name)
    commit_stream sum_hex cfg s
        (flat_path s.namespace (s.session_id ++ b'-' ∷ safe_storage_name name)) content

  unfoldable pub complete : UploadConfig → UploadSession → List ChunkInfo → Exec FileMetadata
  unfolding assemble
  complete cfg s chunks = do f ← assemble cfg s chunks; ignore (delete_session s.session_id); pure f

  unfoldable pub finalize_claimed : UploadConfig → UploadSession → Exec FileMetadata
  unfolding complete
  finalize_claimed cfg claimed = do
    chunks ← list_chunks claimed.session_id
    lift (
        validate_uploaded_chunks chunks claimed.upload_length claimed.chunk_size
          (is_uncompressed claimed.compression))
    let s = expect_sha chunks claimed
    defer (remove_parts s.session_id (sort_by by_index chunks)) (complete cfg s chunks)

  unfoldable pub finalize : UploadConfig → Bytes → Exec FileMetadata
  unfolding finalize_claimed
  finalize cfg id = do
    s ← claim_session_finalizing id
    ignore (touch_session id cfg.session_ttl)
    defer (if ltb_ℤ (pos 0) cfg.namespace_quota_bytes then release_namespace id else pure tt)
        (finalize_claimed cfg s)

  unfoldable pub finalize_for_namespace : UploadConfig → Bytes → Bytes → Exec FileMetadata
  unfolding finalize
  finalize_for_namespace cfg id ns = do _ ← session_for_namespace id ns; finalize cfg id

abbrev pub or_none : Result (List ChunkInfo) → List ChunkInfo
or_none (ok cs) = cs
or_none (err e) = []

unfoldable pub abort : Bytes → Exec (Unit {0})
unfolding remove_parts found_session
abort id = do
  found ← get_session id
  _ ← found_session found
  chunks ← attempt (list_chunks id)
  remove_parts id (or_none chunks)
  delete_session id
  release_namespace id

unfoldable pub abort_for_namespace : Bytes → Bytes → Exec (Unit {0})
unfolding abort
abort_for_namespace id ns = do _ ← session_for_namespace id ns; abort id
