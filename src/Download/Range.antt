-- ===== src/Download/Range.antt =====
-- The range that a download announces against the bytes that it delivers.
use std.Path.{subst}
use fileupload.World.Inversion.{bind-ok}
use fileupload.Storage.Paths.{resolve}
use fileupload.World.Keeps.{keeps_rules, Keeps}
use fileupload.World.{after, lift, pure, raise, Exec, result, Object, World}
use fileupload.Store.{get_blob_by_sha, get_file}
use fileupload.Upload.Delete.{owned}
use fileupload.Domain.{not_found, FileMetadata, ContentBlob, ok}
use fileupload.Storage.LocalFs.{object_at, data_dir, open_object, slice}
use fileupload.Download.{
  download_file, read_range, FileReader, is_zero, DownloadRange, resolve_range, stored, clip,
  part_range,
}
use fileupload.Base.{
  ◌∙◌, ap, take, sym, is_empty, false, true, if◌then◌else◌, Bool, refl, inr, none, inl, some,
  Bool-cases, Option, List, [], length-take, zero, negsuc, ◌∷◌, ◌+◌, ◌-◌, suc, ◌⊎◌, ◌≤◌, drop,
  length, pos_part, pos, ◌≡◌, Bytes, ◌<◌, ℤ, ℕ, arith,
}

length-drop : (n : ℕ) (c : Bytes) → length (drop n c) ≡ length c - n
length-drop zero c = omega arith
length-drop (suc n) [] = omega arith
length-drop (suc n) (b ∷ c) = omega (arith, length-drop n c)

take_all : (n : ℕ) (c : Bytes) → n ≡ length c → take n c ≡ c
take_all zero [] e = refl
take_all zero (b ∷ c) e = absurd (omega (arith, e))
take_all (suc n) [] e = absurd (omega (arith, e))
take_all (suc n) (b ∷ c) e = ap (λ (d : Bytes). b ∷ d) (take_all n c (omega (arith, e)))

-- what is read is the part of the content from the offset on, of the length
slice-take :
    (o n : ℕ) (c : Bytes)
    → (o ≡ 0 × n ≡ length c) ⊎ (0 < n × o + n ≤ length c)
    → slice o n c ≡ take n (drop o c)
unfolding slice
slice-take o n c (inl (start, whole)) = rw start (ground (arith, take_all n c whole))
slice-take o n c (inr h) = ground (arith, h)

length-part : (o n : ℕ) (c : Bytes) → o + n ≤ length c → length (take n (drop o c)) ≡ n
length-part o n c h = omega (arith, h, length-drop o c, length-take n (drop o c))

clip-bounds :
    (left n : ℕ)
    → 0 < left
    → (0 < pos_part (clip left (pos n))) × (pos_part (clip left (pos n)) ≤ left)
unfolding clip
clip-bounds left zero h = ground arith
clip-bounds left (suc n) h = ground arith

part_range-bounds :
    (size n : ℕ) (off : ℤ) (r : ℕ × ℤ)
    → part_range size off (pos n) ≡ ok r
    → (0 < pos_part r.1) × (r.0 + pos_part r.1 ≤ size)
unfolding part_range
part_range-bounds size n (negsuc o) r e = ground arith
part_range-bounds size n (pos o) r e = ground (arith, clip-bounds (size - o) n, e)

-- The range that is resolved lies in the content, and what is read of a content of that size is the part
-- that is announced.
range-slice :
    (size n o : ℕ) (len : ℤ) (r : DownloadRange) (c : Bytes)
    → r.length ≡ pos n
    → length c ≡ size
    → resolve_range size r ≡ ok (o, len)
    → (o + pos_part len ≤ size) × (slice o (pos_part len) c ≡ take (pos_part len) (drop o c))
unfolding resolve_range
range-slice size n o len r c asked whole e = elim (Bool-cases (is_zero r)) [
  | inl all ↦ ground (arith, all, e, whole, slice-take 0 size c)
  | inr some_part ↦
      let part : part_range size r.offset (pos n) ≡ ok (o, len) =
        ground (arith, some_part, e, asked) in
      let b = part_range-bounds size n r.offset (o, len) part in
      (b.1, slice-take o (pos_part len) c (inr (b.0, ground (arith, b.1, whole))))
]

-- the stores' contents, which reading leaves alone
abbrev Disk : List Object → World → Type 0
Disk os w = w.disk ≡ os

get_file-Disk : (os : List Object) (id : Bytes) → Keeps (Disk os) (get_file id)
unfolding get_file
get_file-Disk os id = record { from = λ w h. ground arith }

get_blob-Disk : (os : List Object) (sha : Bytes) → Keeps (Disk os) (get_blob_by_sha sha)
unfolding get_blob_by_sha
get_blob-Disk os sha = record { from = λ w h. ground arith }

owned-Disk :
    (os : List Object) (ns : Bytes) (o : Option FileMetadata) → Keeps (Disk os) (owned ns o)
unfolding owned
owned-Disk os ns none = search keeps_rules
owned-Disk os ns (some f) = search keeps_rules

stored-Disk : (os : List Object) (o : Option ContentBlob) → Keeps (Disk os) (stored o)
unfolding stored
stored-Disk os none = search keeps_rules
stored-Disk os (some b) = search keeps_rules

-- what is read is a part of an object
found-slice :
    (o : Option Bytes) (offset len : ℕ) (w : World) (c : Bytes)
    → result
        (elim o as (λ _. Exec Bytes) [
          | none ↦ raise not_found
          | some d ↦ pure (slice offset len d)
        ])
        w
      ≡ ok c
    → (d : Bytes) × ((o ≡ some d) × (slice offset len d ≡ c))
found-slice none offset len w c e = ground arith
found-slice (some d) offset len w c e = (d, (refl, ground (arith, e)))

open-slice :
    (path : Bytes) (offset len : ℕ) (w : World) (c : Bytes)
    → result (open_object data_dir path offset len) w ≡ ok c
    → (p : Bytes) × ((resolve path ≡ ok p)
        × ((d : Bytes) × ((object_at p w.disk ≡ some d) × (slice offset len d ≡ c))))
unfolding open_object
open-slice path offset len w c e = elim (Bool-cases (w.fails w.calls)) [
  | inl down ↦
      let b₁ = bind-ok (lift (resolve path)) _ w c e in absurd (ground (arith, down, b₁.1.1))
  | inr up ↦
      let b₁ = bind-ok (lift (resolve path)) _ w c e in
      (
        b₁.0,
        (
          b₁.1.0,
          found-slice (object_at b₁.0 w.disk) offset len (record w { calls = w.calls + 1 }) c
              (ground (arith, up, b₁.1.1)),
        ),
      )
]

blob-Disk :
    (os : List Object) (plain : Bool) (sha : Bytes)
    → Keeps (Disk os) (if plain then pure none else get_blob_by_sha sha)
blob-Disk os true sha = record { from = λ w h. h }
blob-Disk os false sha = get_blob-Disk os sha

-- the objects of the blob have its size
abbrev pub IsSized : ContentBlob → List Object → Type 0
IsSized b os =
    (p c : Bytes) → resolve b.storage_path ≡ ok p → object_at p os ≡ some c → length c ≡ b.size

-- The bytes that are delivered are those of the announced range in the object of the blob, whose size is
-- the size that is announced; the range lies in the object.
pub record IsExact (d : FileReader) (os : List Object) : Type 0 where
  pub path : Bytes
  pub object : Bytes
  pub resolved : resolve d.blob.storage_path ≡ ok path
  pub found : object_at path os ≡ some object
  pub sized : length object ≡ d.file_size
  pub within : pos_part d.range.offset + pos_part d.range.length ≤ length object
  pub exact : d.content ≡ take (pos_part d.range.length) (drop (pos_part d.range.offset) object)
  pub whole_part : length d.content ≡ pos_part d.range.length

read-IsExact :
    (f : FileMetadata) (b : ContentBlob) (r : DownloadRange) (n : ℕ) (w : World) (d : FileReader)
    → r.length ≡ pos n
    → result (read_range f b r) w ≡ ok d
    → (d.blob ≡ b) × (IsSized b w.disk → IsExact d w.disk)
unfolding read_range
read-IsExact f b r n w d asked e =
    let b₁ = bind-ok (lift (resolve_range b.size r)) _ w d e in
    let b₂ = bind-ok (open_object data_dir b.storage_path b₁.0.0 (pos_part b₁.0.1)) _ w d b₁.1.1 in
    let s = open-slice b.storage_path b₁.0.0 (pos_part b₁.0.1) w b₂.0 b₂.1.0 in
    (
      ground (arith, b₂.1.1),
      λ sized.
          let size_is = sized s.0 s.1.1.0 s.1.0 s.1.1.1.0 in
          let q = range-slice b.size n b₁.0.0 b₁.0.1 r s.1.1.0 asked size_is b₁.1.0 in
          let o = b₁.0.0 in
          let len = pos_part b₁.0.1 in
          let delivered : b₂.0 ≡ take len (drop o s.1.1.0) = sym s.1.1.1.1 ∙ q.1 in
          let said : (d.blob ≡ b)
              × (d.content ≡ b₂.0)
              × (d.file_size ≡ b.size)
              × (pos_part d.range.offset ≡ o)
              × (pos_part d.range.length ≡ len) =
            ground (arith, b₂.1.1) in
          let fits : o + len ≤ length s.1.1.0 = omega (arith, q.0, size_is) in
          record {
            path = s.0;
            object = s.1.1.0;
            resolved = ap (λ (x : ContentBlob). resolve x.storage_path) said.0 ∙ s.1.0;
            found = s.1.1.1.0;
            sized = size_is ∙ sym said.2;
            within = rw (said.3, said.4) fits;
            exact = rw (said.3, said.4) (said.1 ∙ delivered);
            whole_part =
                rw said.4 (ap length (said.1 ∙ delivered) ∙ length-part o len s.1.1.0 fits);
          },
    )

-- A download that succeeds delivers exactly the bytes that it announces: its content is the part of the
-- blob's object that starts at the announced offset and has the announced length, which lies within the
-- object, and the announced size is that of the object. The request's length is not negative, and the
-- object has the size that the blob says.
pub download-IsExact :
    (id ns : Bytes) (r : DownloadRange) (n : ℕ) (w : World) (d : FileReader)
    → r.length ≡ pos n
    → IsSized d.blob w.disk
    → result (download_file id ns r) w ≡ ok d
    → IsExact d w.disk
unfolding download_file
download-IsExact id ns r n w d asked sized e =
    let b₁ = bind-ok (get_file id) _ w d e in
    let w₁ = after (get_file id) w in
    let b₂ = bind-ok (owned ns b₁.0) _ w₁ d b₁.1.1 in
    let w₂ = after (owned ns b₁.0) w₁ in
    let b₃ =
      bind-ok (if is_empty b₂.0.sha256 then pure none else get_blob_by_sha b₂.0.sha256) _ w₂ d
        b₂.1.1 in
    let w₃ = after (if is_empty b₂.0.sha256 then pure none else get_blob_by_sha b₂.0.sha256) w₂ in
    let b₄ = bind-ok (stored b₃.0) _ w₃ d b₃.1.1 in
    let w₄ = after (stored b₃.0) w₃ in
    let same : w₄.disk ≡ w.disk = (stored-Disk w.disk b₃.0).from w₃ (
      (blob-Disk w.disk (is_empty b₂.0.sha256) b₂.0.sha256).from w₂
        ((owned-Disk w.disk ns b₁.0).from w₁ ((get_file-Disk w.disk id).from w refl))) in
    let x = read-IsExact b₂.0 b₄.0 r n w₄ d asked b₄.1.1 in
    subst (λ os. IsExact d os) same
      (x.1 (subst (λ os. IsSized b₄.0 os) (sym same) (subst (λ b. IsSized b w.disk) x.0 sized)))
