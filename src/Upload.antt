-- ===== src/Upload.antt =====
-- internal/domain/upload.go, finalize.go, trash.go: the upload service.
pub mod Config
pub mod Names
pub mod Instant
pub mod Session
pub mod Append
pub mod Commit
pub mod Finalize
pub mod Isolation
pub mod Delete
pub mod Trash
pub mod Trees
pub mod Move
pub mod Service
pub mod Exclusive
pub mod Chunks
pub mod Submit
