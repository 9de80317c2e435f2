-- ===== src/Storage/LocalFs.antt =====
-- internal/adapters/storage/localfs.go: Write, Open, Delete and Stat over one of the two roots, the
-- data directory and the directory of temporary chunks.
use fileupload.Base.{
  ℕ, Bool, true, false, not, Option, none, some, List, [], ◌∷◌, Bytes, ◌==◌, if◌then◌else◌, select,
  length, take, drop, ltb,
}
use fileupload.Domain.{ok, not_found, backend}
use fileupload.World.{
  World, Object, Exec, pure, raise, gets, backend_call, lift, count_call, ◌>>=◌, ◌>>◌,
}
use fileupload.Storage.Paths.{resolve}

pub data Root : Type 0 where
  data_dir temp_dir : Root

abbrev pub objects : Root → World → List Object
objects data_dir w = w.disk
objects temp_dir w = w.temp

abbrev pub set_objects : Root → List Object → Exec (Unit {0})
set_objects data_dir d w = (ok tt, record w { disk = d })
set_objects temp_dir d w = (ok tt, record w { temp = d })

unfoldable pub object_at : Bytes → List Object → Option Bytes
object_at p [] = none
object_at p (o ∷ os) = if o.path == p then some o.content else object_at p os

unfoldable pub remove_object : Bytes → List Object → List Object
remove_object p = select (λ o. not (o.path == p))

unfoldable pub put_object : Bytes → Bytes → List Object → List Object
unfolding remove_object
put_object p c os = record { path = p; content = c } ∷ remove_object p os

-- What io.Copy read: all bytes, or a reader that failed. A failed copy removes the file.
unfoldable pub copy_into : Root → Bytes → Option Bytes → Exec ℕ
copy_into root p none = do
  os ← gets (objects root)
  set_objects root (remove_object p os)
  raise backend
copy_into root p (some c) = do
  os ← gets (objects root)
  set_objects root (put_object p c os)
  pure (length c)

-- The directory is made and the file created by one call; a second one copies the bytes.
unfoldable pub write : Root → Bytes → Option Bytes → Exec ℕ
unfolding copy_into
write root path stream = do
  p ← lift (resolve path)
  backend_call
  copied ← gets (λ w. not (w.fails w.calls))
  count_call
  copy_into root p (if copied then stream else none)

-- A range of length 0 runs to the end of the file.
unfoldable pub slice : ℕ → ℕ → Bytes → Bytes
slice offset length content =
    let rest = drop offset content in if ltb 0 length then take length rest else rest

unfoldable pub open_object : Root → Bytes → ℕ → ℕ → Exec Bytes
unfolding slice
open_object root path offset length = do
  p ← lift (resolve path)
  backend_call
  found ← gets (λ w. object_at p (objects root w))
  elim found [ none ↦ raise not_found | some c ↦ pure (slice offset length c) ]

-- A file that is not there counts as deleted.
unfoldable pub delete_object : Root → Bytes → Exec (Unit {0})
delete_object root path = do
  p ← lift (resolve path)
  backend_call
  os ← gets (objects root)
  set_objects root (remove_object p os)

unfoldable pub stat : Root → Bytes → Exec (ℕ × Bool)
stat root path = do
  p ← lift (resolve path)
  backend_call
  found ← gets (λ w. object_at p (objects root w))
  elim found [ none ↦ pure (0, false) | some c ↦ pure (length c, true) ]
