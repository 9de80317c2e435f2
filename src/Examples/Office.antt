-- ===== src/Examples/Office.antt =====
-- A small world: a team with a report, an upload and a link.

use fileupload.Limiter.{Limiter}
use fileupload.Meta.Blobs.{blob_by_sha, count_of}
use fileupload.Meta.Files.{has_id, refs}
use fileupload.Store.Integrity.{IsCounted}
use fileupload.Upload.Config.{UploadConfig}
use fileupload.Domain.{
  SessionStatus, ok, comp_none, Result, UploadSession, FileMetadata, ChunkInfo, CompressionFormat,
  ShareEntry, ContentBlob,
}
use fileupload.Base.{
  ◌==◌, eqb, Bool, true, refl, eq_iff, some, Option, none, false, ◌++◌, [], pos, Bytes, ◌∷◌, arith,
  bytes,
}
use fileupload.World.{World}

abbrev pub digest_of : Bytes → Bytes
digest_of content = bytes "sha-" ++ content

abbrev pub unpacked : CompressionFormat → Bytes → Result (Option Bytes)
unpacked format packed = ok (some packed)

abbrev pub settings : UploadConfig
settings = record {
  session_ttl = 3600;
  default_chunk_size = pos 4;
  max_in_flight_bytes = pos 8;
  namespace_quota_bytes = pos 100;
}

abbrev pub report : FileMetadata
report = record {
  file_id = bytes "f1";
  sha256 = bytes "sha-hello";
  name = bytes "report.txt";
  path = bytes "report.txt";
  size = 5;
  namespace = bytes "team";
  is_dir = false;
  parent_id = [];
  tags = [];
  created_at = 900;
  deleted_at = none;
}

abbrev pub hello : ContentBlob
hello = record {
  sha256 = bytes "sha-hello";
  storage_path = bytes "team/s0-report.txt";
  size = 5;
  ref_count = 1;
  created_at = 900;
}

abbrev pub upload : UploadSession
upload = record {
  session_id = bytes "s1";
  file_id = [];
  sha256 = bytes "sha-abcdef";
  upload_length = pos 6;
  compression = comp_none;
  chunk_size = pos 4;
  namespace = bytes "team";
  file_name = bytes "notes.txt";
  created_at = 900;
  expire_at = 5000;
  status = SessionStatus.active;
}

abbrev pub first_chunk : ChunkInfo
first_chunk = record { index = 0; sha256 = bytes "sha-abcd"; size = 4 }

abbrev pub second_chunk : ChunkInfo
second_chunk = record { index = 1; sha256 = bytes "sha-ef"; size = 2 }

abbrev pub link : ShareEntry
link = record {
  token = bytes "t1";
  file_id = bytes "f1";
  password_hash = [];
  password_protected = false;
  expires_at = none;
  max_downloads = 2;
  cur_downloads = 1;
  namespace = bytes "team";
  created_at = 900;
}

-- every backend answers
abbrev pub office : World
office = record {
  db = record {
    files = report ∷ [];
    blobs = hello ∷ [];
    reservations = [];
    shares = link ∷ [];
    tags = [];
  };
  redis = record {
    sessions = record { session = upload; deadline = 5000 } ∷ [];
    chunks =
        record { session_id = bytes "s1"; chunk = second_chunk }
        ∷ record { session_id = bytes "s1"; chunk = first_chunk }
        ∷ [];
    offsets = record { session_id = bytes "s1"; offset = pos 6 } ∷ [];
  };
  disk = record { path = bytes "team/s0-report.txt"; content = bytes "hello" } ∷ [];
  temp =
      record { path = bytes "s1/0.part"; content = bytes "abcd" }
      ∷ record { path = bytes "s1/1.part"; content = bytes "ef" }
      ∷ [];
  now = 1000;
  id_prefix = bytes "p";
  id_counter = 7;
  in_flight = 0;
  calls = 0;
  fails = λ n. false;
}

pub office-IsCounted : IsCounted office.db
unfolding refs count_of blob_by_sha has_id
office-IsCounted = record {
  keyed = (refl, tt);
  covered = λ k hk. ground (arith, eq_iff (bytes "sha-hello") k);
}

abbrev pub notes : FileMetadata
notes = record {
  file_id = bytes "p0000000000000008";
  sha256 = bytes "sha-abcdef";
  name = bytes "notes.txt";
  path = bytes "notes.txt";
  size = 6;
  namespace = bytes "team";
  is_dir = false;
  parent_id = [];
  tags = [];
  created_at = 1000;
  deleted_at = none;
}

abbrev pub claimed_upload : UploadSession
claimed_upload = record upload { status = SessionStatus.finalizing }

-- the third call of a backend fails
abbrev pub shaken : World
shaken = record office { fails = λ n. eqb n 2 }

abbrev pub same_bytes : Bytes → Bytes → Bool
same_bytes hash password = hash == password

-- a limiter that has seen one failure of a key, and locks it at the second
abbrev pub guard : Limiter
guard = record {
  attempts = record { key = bytes "k"; failures = 1; last_failure = 90; locked_until = 0 } ∷ [];
  max_failures = 2;
  cooldown = 50;
  max_entries = 10;
}

-- a folder in the recycle bin, with the report in it
abbrev pub folder : FileMetadata
folder = record report { file_id = bytes "d1"; sha256 = []; is_dir = true; deleted_at = some 950 }

abbrev pub binned : FileMetadata
binned = record report { parent_id = bytes "d1"; deleted_at = some 950 }

abbrev pub reserved_office : World
reserved_office = record office {
  db = record office.db {
    reservations =
        record { reservation_id = bytes "r1"; namespace = bytes "team"; bytes = 95 } ∷ [];
  };
  calls = 1;
}

abbrev pub top : FileMetadata
top = record report { file_id = bytes "d1"; sha256 = []; is_dir = true }

abbrev pub shelf : FileMetadata
shelf = record report { file_id = bytes "d2"; sha256 = []; is_dir = true; parent_id = bytes "d1" }

abbrev pub shelves : World
shelves = record office { db = record office.db { files = report ∷ top ∷ shelf ∷ [] } }
