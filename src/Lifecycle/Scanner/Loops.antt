-- ===== src/Lifecycle/Scanner/Loops.antt =====
-- What the loops of the scanner find.
use fileupload.World.Reads.{Reads-attempt_ok, Reads-bind, Reads-pure, Reads}
use fileupload.World.Inversion.{Result-cases}
use fileupload.Store.{get_file}
use fileupload.Upload.Delete.References.{get_file-answered}
use fileupload.Storage.LocalFs.{data_dir, stat, object_at}
use fileupload.Upload.Names.{base_name}
use fileupload.Storage.Paths.{resolve}
use fileupload.Upload.Delete.LastReference.{Answers}
use fileupload.Meta.Files.{refs, live_file}
use fileupload.Lifecycle.Scanner.{
  is_lost, lost_among, is_missing, has_drifted, drifted_among, list_files_by_blob, orphans_among,
}
use fileupload.Domain.{err, ok, ContentBlob, Result, FileMetadata}
use fileupload.World.{pure, Db, attempt, after, World, Object, ◌>>=◌}
use std.Path.{subst}
use fileupload.Base.{
  arith, ◌==◌, length, ap, refl, inr, inl, Option-cases, none, [], false, ◌+◌, eqb, select,
  if◌then◌else◌, not, some, map, ◌≡◌, ◌∷◌, true, Option, Bool, ℕ, List, Bytes,
}

abbrev pub is_none : {A : Type 0} → Option A → Bool
is_none none = true
is_none (some a) = false

-- the elements that pass a test, counted
abbrev pub count_where : {A : Type 0} → (A → Bool) → List A → ℕ
count_where p [] = 0
count_where p (x ∷ xs) = (if p x then 1 else 0) + count_where p xs

-- no live file has the base name of the path for its identifier
abbrev pub is_unnamed : List FileMetadata → Object → Bool
is_unnamed fs o = is_none (live_file (base_name o.path) fs)

-- the content of the blob is in the store
abbrev pub is_stored : List Object → ContentBlob → Bool
is_stored os b = elim (resolve b.storage_path) [
  | ok p ↦ not (is_none (object_at p os))
  | err e ↦ false
]

-- the count of the blob differs from the number of files that name it
abbrev pub is_off : List FileMetadata → ContentBlob → Bool
is_off fs b = not (eqb (refs b.sha256 fs) b.ref_count)

pub Answers-after :
    {A : Type 0} (a : A) (w : World) (o : Result A × World) → Answers w → Reads a w o → Answers o.1
Answers-after a w o up h = λ n. let e : o.1.fails n ≡ false = cc (h.faults, up n) in e

found_file :
    (id : Bytes) (w : World) → Answers w → Reads (live_file id w.db.files) w (get_file id w)
found_file id w up =
    rw (get_file-answered id w (up w.calls)) (record {
      value = refl;
      tables = refl;
      disk = refl;
      temp = refl;
      redis = refl;
      faults = refl;
    })

length-refs :
    (sha : Bytes) (fs : List FileMetadata) → length (select (λ f. f.sha256 == sha) fs) ≡ refs sha fs
unfolding refs
length-refs sha [] = refl
length-refs sha (f ∷ fs) = ground (arith, length-refs sha fs)

listed_files :
    (sha : Bytes) (w : World)
    → Answers w
    → Reads (select (λ f. f.sha256 == sha) w.db.files) w (list_files_by_blob sha w)
unfolding list_files_by_blob
listed_files sha w up =
    rw (up w.calls) (record {
      value = refl;
      tables = refl;
      disk = refl;
      temp = refl;
      redis = refl;
      faults = refl;
    })

missing_path :
    (fs : List FileMetadata) (o : Object) (os : List Object)
    → (if is_missing (ok (live_file (base_name o.path) fs))
        then o.path ∷ map (λ x. x.path) (select (is_unnamed fs) os)
        else map (λ x. x.path) (select (is_unnamed fs) os))
      ≡ map (λ x. x.path) (select (is_unnamed fs) (o ∷ os))
missing_path fs o os = elim (Option-cases (live_file (base_name o.path) fs)) [
  | inl e ↦ rw e refl
  | inr (f, e) ↦ rw e refl
]

pub orphans-Reads :
    (os : List Object) (w : World)
    → Answers w
    → Reads (map (λ o. o.path) (select (is_unnamed w.db.files) os)) w (orphans_among os w)
unfolding orphans_among
orphans-Reads [] w up = Reads-pure [] w
orphans-Reads (o ∷ os) w up =
    let id = base_name o.path in
    let found = live_file id w.db.files in
    let looked = found_file id w up in
    let w' = after (get_file id) w in
    let rest = orphans-Reads os w' (Answers-after found w (get_file id w) up looked) in
    let same =
      ap (λ (d : Db). map (λ (x : Object). x.path) (select (is_unnamed d.files) os))
        looked.tables in
    let rest' = subst (λ xs. Reads xs w' (orphans_among os w')) same rest in
    let xs = map (λ (x : Object). x.path) (select (is_unnamed w.db.files) os) in
    subst (λ ys. Reads ys w (orphans_among (o ∷ os) w)) (missing_path w.db.files o os)
      (Reads-bind (attempt (get_file id))
        (λ x. orphans_among os >>= λ ys. pure (if is_missing x then o.path ∷ ys else ys)) w
        (ok found) _ (Reads-attempt_ok (get_file id) w found looked)
        (Reads-bind (orphans_among os)
          (λ ys. pure (if is_missing (ok found) then o.path ∷ ys else ys)) w' xs _ rest'
          (Reads-pure _ _)))

-- the number of blobs whose count is off
pub drifted-Reads :
    (bs : List ContentBlob) (w : World)
    → Answers w
    → Reads (count_where (is_off w.db.files) bs) w (drifted_among bs w)
unfolding drifted_among
drifted-Reads [] w up = Reads-pure 0 w
drifted-Reads (b ∷ bs) w up =
    let sha = b.sha256 in
    let rows = select (λ (f : FileMetadata). f.sha256 == sha) w.db.files in
    let looked = listed_files sha w up in
    let w' = after (list_files_by_blob sha) w in
    let rest = drifted-Reads bs w' (Answers-after rows w (list_files_by_blob sha w) up looked) in
    let same = ap (λ (d : Db). count_where (is_off d.files) bs) looked.tables in
    let rest' = subst (λ n. Reads n w' (drifted_among bs w')) same rest in
    subst (λ n. Reads n w (drifted_among (b ∷ bs) w))
      (ap
        (λ (n : ℕ). (if not (eqb n b.ref_count) then 1 else 0) + count_where (is_off w.db.files) bs)
        (length-refs sha w.db.files))
      (Reads-bind (attempt (list_files_by_blob sha))
        (λ x. drifted_among bs >>= λ n. pure ((if has_drifted b x then 1 else 0) + n)) w (ok rows) _
        (Reads-attempt_ok (list_files_by_blob sha) w rows looked)
        (Reads-bind (drifted_among bs) (λ n. pure ((if has_drifted b (ok rows) then 1 else 0) + n))
          w' (count_where (is_off w.db.files) bs) _ rest' (Reads-pure _ _)))

-- what Stat says of a blob's content
record Seen (b : ContentBlob) (w : World) : Type 0 where
  outcome : Result (ℕ × Bool)
  reads : Reads outcome w (attempt (stat data_dir b.storage_path) w)
  tells : is_lost outcome ≡ not (is_stored w.disk b)

stat-Seen : (b : ContentBlob) (w : World) → Answers w → Seen b w
unfolding stat
stat-Seen b w up = elim (Result-cases (resolve b.storage_path)) [
  | inl (p, e) ↦ elim (Option-cases (object_at p w.disk)) [
    | inl absent ↦ record {
      outcome = ok (0, false);
      reads =
          rw (e, up w.calls, absent)
            (record {
              value = refl;
              tables = refl;
              disk = refl;
              temp = refl;
              redis = refl;
              faults = refl;
            });
      tells = rw (e, absent, is_stored) refl;
    }
    | inr (c, there) ↦ record {
      outcome = ok (length c, true);
      reads =
          rw (e, up w.calls, there)
            (record {
              value = refl;
              tables = refl;
              disk = refl;
              temp = refl;
              redis = refl;
              faults = refl;
            });
      tells = rw (e, there, is_stored) refl;
    }
  ]
  | inr (x, e) ↦ record {
    outcome = err x;
    reads = rw e (record {
      value = refl;
      tables = refl;
      disk = refl;
      temp = refl;
      redis = refl;
      faults = refl;
    });
    tells = rw (e, is_stored) refl;
  }
]

pub lost-Reads :
    (bs : List ContentBlob) (w : World)
    → Answers w
    → Reads (count_where (λ b. not (is_stored w.disk b)) bs) w (lost_among bs w)
unfolding lost_among
lost-Reads [] w up = Reads-pure 0 w
lost-Reads (b ∷ bs) w up =
    let seen = stat-Seen b w up in
    let w' = after (attempt (stat data_dir b.storage_path)) w in
    let rest =
      lost-Reads bs w'
        (Answers-after seen.outcome w (attempt (stat data_dir b.storage_path) w) up seen.reads) in
    let same =
      ap (λ (d : List Object). count_where (λ c. not (is_stored d c)) bs) seen.reads.disk in
    let n = count_where (λ c. not (is_stored w.disk c)) bs in
    let rest' = subst (λ k. Reads k w' (lost_among bs w')) same rest in
    subst (λ k. Reads k w (lost_among (b ∷ bs) w))
      (ap (λ (l : Bool). (if l then 1 else 0) + n) seen.tells)
      (Reads-bind (attempt (stat data_dir b.storage_path))
        (λ x. lost_among bs >>= λ k. pure ((if is_lost x then 1 else 0) + k)) w seen.outcome _
        seen.reads
        (Reads-bind (lost_among bs) (λ k. pure ((if is_lost seen.outcome then 1 else 0) + k)) w' n _
          rest' (Reads-pure _ _)))
