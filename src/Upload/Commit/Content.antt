-- ===== src/Upload/Commit/Content.antt =====
-- What the file of a completed upload says of its content.
use fileupload.Store.{decr_blob_ref, put_file, acquire_blob}
use fileupload.Ids.{new_id}
use fileupload.Storage.LocalFs.{write, data_dir, delete_object}
use fileupload.World.Inversion.{
  Yields-raise, Yields-require, Yields-or_else, Yields-after, Yields-pure, Yields-bind, Yields,
}
use fileupload.Upload.Commit.{
  file_of, blob_of, commit_stream, declared_matches, record_content, check_content,
}
use fileupload.Domain.{ok, backend, content_checksum, FileMetadata, UploadSession}
use fileupload.Upload.Config.{reserve_namespace, UploadConfig}
use fileupload.Base.{if◌then◌else◌, pos, none, some, Option, refl, true, length, ◌≡◌, Bytes}
use fileupload.World.{require, gets, or_else, pure, result, World, ignore}

module _ (sum_hex : Bytes → Bytes) (cfg : UploadConfig) (s : UploadSession) where
  checked :
      (path content : Bytes)
      → Yields
          (λ _. declared_matches s.sha256 (sum_hex content) ≡ true)
          (check_content sum_hex cfg s path content)
  unfolding check_content
  checked path content =
      Yields-after (λ _. declared_matches s.sha256 (sum_hex content) ≡ true)
        (λ _. declared_matches s.sha256 (sum_hex content) ≡ true)
        (or_else (require (declared_matches s.sha256 (sum_hex content)) content_checksum)
          (ignore (delete_object data_dir path)))
        _
        (Yields-or_else (λ _. declared_matches s.sha256 (sum_hex content) ≡ true)
          (require (declared_matches s.sha256 (sum_hex content)) content_checksum)
          (ignore (delete_object data_dir path))
          (Yields-require (declared_matches s.sha256 (sum_hex content)) content_checksum))
        λ u h.
          Yields-bind (λ _. declared_matches s.sha256 (sum_hex content) ≡ true)
            (or_else (reserve_namespace cfg s.session_id s.namespace (pos (length content)))
              (ignore (delete_object data_dir path)))
            _ λ r. Yields-pure (λ _. declared_matches s.sha256 (sum_hex content) ≡ true) tt h

  -- the file that the rows are written for
  pub record Describes (content : Bytes) (f : FileMetadata) : Type 0 where
    pub digest : f.sha256 ≡ sum_hex content
    pub size : f.size ≡ length content
    pub namespace : f.namespace ≡ s.namespace

  recorded :
      (path content : Bytes) → Yields (Describes content) (record_content sum_hex s path content)
  unfolding record_content
  recorded path content = Yields-bind (Describes content) new_id _ λ id.
      Yields-bind (Describes content) (gets (λ w. w.now)) _ λ now.
        Yields-bind (Describes content)
          (or_else (acquire_blob (blob_of sum_hex path content now))
            (ignore (delete_object data_dir path)))
          _
          λ got.
            Yields-bind (Describes content)
              (if got.1 then pure tt else ignore (delete_object data_dir path)) _
              λ _.
                Yields-bind (Describes content)
                  (or_else (put_file (file_of sum_hex s id content now))
                    (ignore (decr_blob_ref (sum_hex content))))
                  _
                  λ _.
                    Yields-pure (Describes content) (file_of sum_hex s id content now)
                      (record { digest = refl; size = refl; namespace = refl })

  -- the file tells the content that the stream delivered, which is the one that was declared
  pub Commits : Option Bytes → FileMetadata → Type 0
  Commits stream f =
      (content : Bytes) × ((stream ≡ some content)
        × (Describes content f × (declared_matches s.sha256 (sum_hex content) ≡ true)))

  committed :
      (path : Bytes) (stream : Option Bytes)
      → Yields (Commits stream) (commit_stream sum_hex cfg s path stream)
  unfolding commit_stream Commits
  committed path none =
      Yields-bind (Commits none) (write data_dir path none) _
        λ n. Yields-raise (Commits none) backend
  committed path (some content) =
      Yields-bind (Commits (some content)) (write data_dir path (some content)) _ λ n.
        Yields-after (λ _. declared_matches s.sha256 (sum_hex content) ≡ true)
          (Commits (some content)) (check_content sum_hex cfg s path content) _
          (checked path content)
          λ u h. record {
            of_result = λ w f e. (content, (refl, ((recorded path content).of_result w f e, h)));
          }

  -- A stream is committed only if it could be read to its end; the file then has the digest and the
  -- length of what was read and the session's namespace, and the digest is the one that the session
  -- declares, if it declares one.
  pub commit_faithful :
      (path : Bytes) (stream : Option Bytes) (w : World) (f : FileMetadata)
      → result (commit_stream sum_hex cfg s path stream) w ≡ ok f
      → Commits stream f
  commit_faithful path stream w f e = (committed path stream).of_result w f e
