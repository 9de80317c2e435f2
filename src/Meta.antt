-- ===== src/Meta.antt =====
-- internal/adapters/metadata: the SQL tables and the Redis keys, and the statements on them.
pub mod Blobs
pub mod Files
pub mod Quota
pub mod Sessions
