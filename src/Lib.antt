-- ===== src/Lib.antt =====
-- A file upload service in Go: resumable uploads with deduplicated content, a recycle bin, share links,
-- quotas, batches and background clean-up. The services of internal/domain work on a metadata store (SQL
-- tables for files, blobs, tags, reservations and shares; Redis for upload sessions), on two object stores
-- (the data and the temporary chunks) and on a pool of workers.
--
-- Every service call is an action (World.Exec): it takes the world, with the tables, the keys, the
-- stores, the clock, the identifiers and the weight of the chunk semaphore, and returns a result and
-- the world that it leaves. Each call of a backend may fail: the world holds which ones do, so a
-- theorem about all worlds is about all failures. An error keeps what was written before it.
--
--   Base: numbers, tests, lists, integers, byte strings, insertion sort, predicates on every element.
--   Domain: the records and errors of internal/domain/model.go and share.go.
--   World: the state, the monad, and the rules for invariants (Keeps, Triple), for successful runs
--   (Inversion), for errors that do not occur (Avoids) and for actions that only read (Reads).
--   Ids: internal/domain/id.go.
--   Meta: the SQL statements and Redis commands of internal/adapters/metadata/sqlite.go and redis.go
--   as functions on tables. Store: the same as actions, with the transaction that reserves quota
--   (Store/Quota), the pages of a listing (Store/Pages), the tags (Store/Tags), the sessions
--   (Store/Sessions) and the invariant on reference counts (Store/Integrity, Store/Counted).
--   Storage: internal/adapters/storage/localfs.go, with the check of paths (Storage/Paths).
--   Upload: internal/domain/upload.go, finalize.go, refcount.go, layout.go and trash.go. Config and Names
--   are NewUploadService and safeStorageName; Instant is CheckExists; Session is CreateSession and the
--   lookups; Append is AppendChunk; Chunks is validateUploadedChunks; Commit is mergeChunks,
--   verifyStream and commitStreamWithGuard; Finalize is Finalize and Abort; Submit is SubmitDir; Delete is
--   DeleteFile, Rename and the logged deletion; Move is MoveFile; Trash is trashTreeByID and
--   RestoreFromTrash; Trees/Bin is Trash, Trees/Erase the deletions of directories and PurgeFromTrash.
--   Isolation and Exclusive are about several of these operations at once; Service is a run of
--   requests.
--   Download: internal/domain/download.go. Range is GetFile; Directory is GetDirManifest and
--   GetDirTotalSize, Directory/Archive is StreamDir; Ancestors, Listing and Bundle are GetAncestors, the
--   listings with Stat, and StreamBatch; Lookup is the queries for many keys (batch_query_helpers.go).
--   Batch: internal/domain/batch.go.
--   Share: internal/domain/share.go. Limiter: internal/transport/share_password_limiter.go.
--   Auth: internal/adapters/auth/jwt.go, with redis.go's ClaimRefreshToken; a state of
--   its own, the users and the tokens that were used.
--   Transport: internal/transport/middleware.go, the layers that decide who makes a request and in which
--   namespace, composed as in internal/transport/router.go.
--   Sdk: sdk/go/fileupload/upload.go, the upload of data in memory by the client.
--   Lifecycle: internal/lifecycle. Reaper and Scanner are reaper.go, Janitor is trash_janitor.go.
--   Examples: a small world, in which the theorems are applied.
--
-- Parameters: the digest (crypto/sha256), the codecs of internal/adapters/compressor, the password
-- hashes of bcrypt, the tokens of crypto/rand, the parser of JWTs, which is there only with a secret in the
-- configuration, the patterns of SQL's LIKE, and the order in which Go goes through a map. Strings are lists of bytes; times are natural numbers. An int64 that the code compares or
-- adds keeps its sign (Base/Int) or is its bit pattern with wrap-around.
--
-- Loops are structural. The walk over a tree in the recycle bin has fuel: one more than the number of items
-- is enough, since an item joins the queue once; so has the walk of MoveFile over the parents, since it
-- stops at a file that it has seen. GetAncestors stops at 100 files. The recursions over directories have
-- fuel. Running out of it is the error out_of_fuel, which is none of the program's and which no caller
-- counts, logs or drops: it stands for a recursion that does not return. Where no directory is below
-- itself, the height of the tree and one is enough (Upload/Trees/Ends, Batch/Totals); where the parents
-- form a cycle the code does not return. The
-- digits of a chunk's index have fuel too: a number has fewer digits than its value and one.
--
-- Not modelled: HTTP handlers, the rate limiter, configuration, PostgreSQL, S3, the archive formats, the
-- command line and the rest of the SDK. The worker that a request submits its chunk to runs at once; the
-- request may still fail to wait for it. Symbolic links do not occur in the stores.
pub mod Base
pub mod Domain
pub mod World
pub mod Ids
pub mod Meta
pub mod Store
pub mod Storage
pub mod Upload
pub mod Download
pub mod Share
pub mod Limiter
pub mod Lifecycle
pub mod Transport
pub mod Sdk
pub mod Auth
pub mod Batch
pub mod Examples
