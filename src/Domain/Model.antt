-- ===== src/Domain/Model.antt =====
-- internal/domain/model.go, internal/domain/share.go: the records that the services exchange.
use fileupload.Base.{ℕ, true, false, Bool, Option, List, Bytes, ℤ}

pub data SessionStatus : Type 0 where
  active finalizing completed aborted : SessionStatus

abbrev pub is_active : SessionStatus → Bool
is_active active = true
is_active _ = false

pub data CompressionFormat : Type 0 where
  comp_none zstd gzip tar_zst tar_gz zip unset : CompressionFormat

pub record UploadSession : Type 0 where
  pub session_id : Bytes
  pub file_id : Bytes
  pub sha256 : Bytes
  pub upload_length : ℤ
  pub compression : CompressionFormat
  pub chunk_size : ℤ
  pub namespace : Bytes
  pub file_name : Bytes
  pub created_at : ℕ
  pub expire_at : ℕ
  pub status : SessionStatus

pub record ChunkInfo : Type 0 where
  pub index : ℕ
  pub sha256 : Bytes
  pub size : ℕ

pub record ContentBlob : Type 0 where
  pub sha256 : Bytes
  pub storage_path : Bytes
  pub size : ℕ
  pub ref_count : ℕ
  pub created_at : ℕ

pub record FileMetadata : Type 0 where
  pub file_id : Bytes
  pub sha256 : Bytes
  pub name : Bytes
  pub path : Bytes
  pub size : ℕ
  pub namespace : Bytes
  pub is_dir : Bool
  pub parent_id : Bytes
  pub tags : List Bytes
  pub created_at : ℕ
  pub deleted_at : Option ℕ

pub record DirEntry : Type 0 where
  pub path : Bytes
  pub file_id : Bytes

pub record DirManifest : Type 0 where
  pub name : Bytes
  pub entries : List DirEntry

-- `expires_at` is none for the empty string. A non-empty text parses as a time, since the
-- service itself formats it.
pub record ShareEntry : Type 0 where
  pub token : Bytes
  pub file_id : Bytes
  pub password_hash : Bytes
  pub password_protected : Bool
  pub expires_at : Option ℕ
  pub max_downloads : ℕ
  pub cur_downloads : ℕ
  pub namespace : Bytes
  pub created_at : ℕ
