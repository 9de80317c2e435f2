-- ===== src/Download/Bundle/NameClash.antt =====
-- The names in an archive of several files.
use fileupload.Meta.Blobs.{has_blob}
use fileupload.Download.Bundle.{count_name, unique_name, BundleEntry, name_entries}
use fileupload.Domain.{FileMetadata, ContentBlob}
use fileupload.Base.{
  inr, eq→path, length, inl, Bool-cases, false, ap, ◌∙◌, ◌==◌, eq_refl, refl, eqb, ◌&&◌, arith, [],
  ◌≡◌, map, true, ◌∷◌, Bool, List, Bytes,
}

abbrev pub names_of : List BundleEntry → List Bytes
names_of es = map (λ e. e.name) es

-- what the loop makes of the names, if every content is known
unfoldable pub unique_names : List Bytes → List Bytes → List Bytes
unique_names counted [] = []
unique_names counted (n ∷ ns) = unique_name counted n ∷ unique_names (n ∷ counted) ns

unfoldable pub all_known : List ContentBlob → List FileMetadata → Bool
all_known blobs [] = true
all_known blobs (f ∷ fs) = has_blob f.sha256 blobs && all_known blobs fs

names-unique_names :
    (blobs : List ContentBlob) (counted : List Bytes) (fs : List FileMetadata)
    → all_known blobs fs ≡ true
    → names_of (name_entries blobs counted fs) ≡ unique_names counted (map (λ f. f.name) fs)
unfolding name_entries unique_names all_known has_blob
names-unique_names blobs counted [] h = refl
names-unique_names blobs counted (f ∷ fs) h =
    ground (arith, names-unique_names blobs (f.name ∷ counted) fs)

unfoldable pub distinct_names : List Bytes → List Bytes → Bool
distinct_names counted [] = true
distinct_names counted (n ∷ ns) = eqb (count_name n counted) 0 && distinct_names (n ∷ counted) ns

unique_names-distinct :
    (counted ns : List Bytes) → distinct_names counted ns ≡ true → unique_names counted ns ≡ ns
unfolding unique_names distinct_names unique_name
unique_names-distinct counted [] h = refl
unique_names-distinct counted (n ∷ ns) h = ground (arith, unique_names-distinct (n ∷ counted) ns)

-- the name that a second file called `n` gets
abbrev pub second_name : Bytes → Bytes
second_name n = b'1' ∷ b'_' ∷ n

-- a name and the name with a prefix differ
apart : (n : Bytes) → (n == second_name n) ≡ false
apart n = elim (Bool-cases (n == second_name n)) [
  | inl e ↦ absurd (omega (arith, ap length (eq→path n (second_name n) e)))
  | inr e ↦ e
]

three_names :
    (n : Bytes)
    → unique_names [] (n ∷ n ∷ second_name n ∷ []) ≡ n ∷ second_name n ∷ second_name n ∷ []
unfolding unique_names unique_name count_name fileupload.Upload.Append.decimal
three_names n = rw (eq_refl n) (rw (apart n) refl)

-- If the names of the files differ, each entry of the archive has the name of its file. If two files have
-- one name and a third one has that name behind `1_`, the second and the third entry have the same name.
-- In either case the contents of all the files are known.
pub entry_names :
    (blobs : List ContentBlob) (fs : List FileMetadata)
    → all_known blobs fs ≡ true
    → let names = map (λ f. f.name) fs in
      (distinct_names [] names ≡ true → names_of (name_entries blobs [] fs) ≡ names)
      × ((n : Bytes)
          → names ≡ n ∷ n ∷ second_name n ∷ []
          → names_of (name_entries blobs [] fs) ≡ n ∷ second_name n ∷ second_name n ∷ [])
entry_names blobs fs known =
    let same = names-unique_names blobs [] fs known in
    (
      λ d. same ∙ unique_names-distinct [] (map (λ f. f.name) fs) d,
      λ n e. same ∙ ap (unique_names []) e ∙ three_names n,
    )
