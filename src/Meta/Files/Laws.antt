-- ===== src/Meta/Files/Laws.antt =====
-- How the statements on the table files change the number of rows that name a digest.
use fileupload.Base.{
  ◌+◌, Bool, true, false, refl, update_where, ◌≡◌, none, some, List, [], ◌∷◌, ◌++◌, Bytes, ◌==◌,
  eq_iff, if◌then◌else◌, arith,
}
use fileupload.Domain.{FileMetadata}
use fileupload.Meta.Files.{live_file, has_id, insert_file, delete_rows, refs}

-- file_id is a primary key.
abbrev pub IsKeyed : List FileMetadata → Type 0
IsKeyed [] = Unit {0}
IsKeyed (f ∷ fs) = (has_id f.file_id fs ≡ false) × IsKeyed fs

pub refs-append :
    (k : Bytes) (fs : List FileMetadata) (f : FileMetadata)
    → refs k (fs ++ f ∷ []) ≡ refs k fs + (if f.sha256 == k then 1 else 0)
unfolding refs
refs-append k [] f = omega arith
refs-append k (g ∷ fs) f = omega (arith, refs-append k fs f)

has_id-append :
    (k : Bytes) (fs : List FileMetadata) (f : FileMetadata)
    → has_id k (fs ++ f ∷ []) ≡ (if f.file_id == k then true else has_id k fs)
unfolding has_id
has_id-append k [] f = ground arith
has_id-append k (g ∷ fs) f = ground (arith, has_id-append k fs f)

IsKeyed-append :
    (fs : List FileMetadata) (f : FileMetadata)
    → has_id f.file_id fs ≡ false
    → IsKeyed fs
    → IsKeyed (fs ++ f ∷ [])
unfolding has_id
IsKeyed-append [] f h ks = ground arith
IsKeyed-append (g ∷ fs) f h ks = ground (
  arith,
  has_id-append g.file_id fs f,
  eq_iff f.file_id g.file_id,
  eq_iff g.file_id f.file_id,
  IsKeyed-append fs f,
)

pub insert_file-IsKeyed :
    (f : FileMetadata) (fs : List FileMetadata) {gs : List FileMetadata}
    → insert_file f fs ≡ some gs
    → IsKeyed fs
    → IsKeyed gs
unfolding insert_file
insert_file-IsKeyed f fs {gs} e ks =
    ground (arith, IsKeyed-append fs (record f { tags = []; deleted_at = none }))

pub refs-insert_file :
    (k : Bytes) (f : FileMetadata) (fs : List FileMetadata) {gs : List FileMetadata}
    → insert_file f fs ≡ some gs
    → refs k gs ≡ refs k fs + (if f.sha256 == k then 1 else 0)
unfolding insert_file
refs-insert_file k f fs {gs} e =
    ground (arith, refs-append k fs (record f { tags = []; deleted_at = none }))

delete_rows_absent :
    (id : Bytes) (fs : List FileMetadata) → has_id id fs ≡ false → delete_rows id fs ≡ fs
unfolding has_id delete_rows
delete_rows_absent id [] h = ground arith
delete_rows_absent id (f ∷ fs) h = ground (arith, delete_rows_absent id fs)

pub live_file_absent :
    (id : Bytes) (fs : List FileMetadata) → has_id id fs ≡ false → live_file id fs ≡ none
unfolding has_id live_file
live_file_absent id [] h = ground arith
live_file_absent id (f ∷ fs) h = ground (arith, live_file_absent id fs)

-- Deleting the row of a live file takes one reference from its digest, and none from another.
pub refs-delete_rows :
    (k id : Bytes) (fs : List FileMetadata) (f : FileMetadata)
    → IsKeyed fs
    → live_file id fs ≡ some f
    → refs k fs ≡ refs k (delete_rows id fs) + (if f.sha256 == k then 1 else 0)
unfolding refs live_file delete_rows
refs-delete_rows k id [] f ks e = ground arith
refs-delete_rows k id (g ∷ fs) f ks e = ground (
  arith,
  eq_iff g.file_id id,
  refs-delete_rows k id fs f,
  live_file_absent id fs,
  delete_rows_absent id fs,
)

has_id-delete_rows :
    (k id : Bytes) (fs : List FileMetadata)
    → has_id k fs ≡ false
    → has_id k (delete_rows id fs) ≡ false
unfolding has_id delete_rows
has_id-delete_rows k id [] h = refl
has_id-delete_rows k id (f ∷ fs) h = ground (arith, has_id-delete_rows k id fs)

pub delete_rows-IsKeyed :
    (id : Bytes) (fs : List FileMetadata) → IsKeyed fs → IsKeyed (delete_rows id fs)
unfolding delete_rows
delete_rows-IsKeyed id [] ks = tt
delete_rows-IsKeyed id (f ∷ fs) ks =
    ground (arith, delete_rows-IsKeyed id fs, has_id-delete_rows f.file_id id fs)

-- An UPDATE that leaves the identifier and the digest alone.
module _ (p : FileMetadata → Bool) (g : FileMetadata → FileMetadata)
    (keeps_id : (f : FileMetadata) → (g f).file_id ≡ f.file_id)
    (keeps_sha : (f : FileMetadata) → (g f).sha256 ≡ f.sha256) where
  pub refs-update_where :
      (k : Bytes) (fs : List FileMetadata) → refs k (update_where p g fs) ≡ refs k fs
  unfolding refs
  refs-update_where k [] = refl
  refs-update_where k (f ∷ fs) = ground (arith, keeps_sha f, refs-update_where k fs)

  has_id-update_where :
      (k : Bytes) (fs : List FileMetadata) → has_id k (update_where p g fs) ≡ has_id k fs
  unfolding has_id
  has_id-update_where k [] = refl
  has_id-update_where k (f ∷ fs) = ground (arith, keeps_id f, has_id-update_where k fs)

  pub update_where-IsKeyed : (fs : List FileMetadata) → IsKeyed fs → IsKeyed (update_where p g fs)
  update_where-IsKeyed [] ks = tt
  update_where-IsKeyed (f ∷ fs) ks = ground (
    arith,
    keeps_id f,
    has_id-update_where f.file_id fs,
    has_id-update_where (g f).file_id fs,
    update_where-IsKeyed fs,
  )
