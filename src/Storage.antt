-- ===== src/Storage.antt =====
-- internal/adapters/storage/localfs.go: the local object store.
pub mod Paths
pub mod LocalFs
pub mod Objects
