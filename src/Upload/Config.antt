-- ===== src/Upload/Config.antt =====
-- internal/domain/upload.go: UploadConfig, and the reservation of a namespace's capacity. The
-- metadata store of the server, Facade, implements NamespaceQuotaReservoir, so the other branch of
-- reserveNamespace is not reached.
use fileupload.Base.{ℕ, zero, suc, Bool, true, false, ◌||◌, Bytes, ℤ, pos, negsuc, if◌then◌else◌}
use fileupload.World.{Exec, pure, ◌>>◌}
use fileupload.Store.Quota.{reserve_namespace_bytes, release_namespace_reservation}

pub record UploadConfig : Type 0 where
  pub session_ttl : ℕ
  pub default_chunk_size : ℤ
  pub max_in_flight_bytes : ℤ
  pub namespace_quota_bytes : ℤ

abbrev pub default_max_in_flight_bytes : ℤ
default_max_in_flight_bytes = pos 268_435_456

-- x <= 0
abbrev pub not_positive : ℤ → Bool
not_positive (pos zero) = true
not_positive (pos (suc n)) = false
not_positive (negsuc n) = true

-- the configuration that NewUploadService keeps
unfoldable pub new_upload_service : UploadConfig → UploadConfig
new_upload_service cfg =
    if not_positive cfg.max_in_flight_bytes
    then record cfg { max_in_flight_bytes = default_max_in_flight_bytes }
    else cfg

-- whether a reservation was made
unfoldable pub reserve_namespace : UploadConfig → Bytes → Bytes → ℤ → Exec Bool
reserve_namespace cfg id ns n =
    if not_positive cfg.namespace_quota_bytes || not_positive n
    then pure false
    else do reserve_namespace_bytes ns id n cfg.namespace_quota_bytes; pure true

unfoldable pub release_namespace : Bytes → Exec (Unit {0})
release_namespace id = release_namespace_reservation id
