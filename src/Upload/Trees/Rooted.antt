-- ===== src/Upload/Trees/Rooted.antt =====
-- The directory tree of the live files, and what a removal of rows leaves of it.
use fileupload.Meta.Files.Laws.{live_file_absent, update_where-IsKeyed, IsKeyed}
use fileupload.Meta.Files.{is_live, set_deleted, live_file, children_of}
use fileupload.Domain.{FileMetadata}
use std.Path.{subst}
use fileupload.Base.{
  All-weaken, All-select_tail, eq_refl, not, All-select_head, [], All-select_cons, refl, eq_iff,
  true, ◌∷◌, arith, is_empty, ◌⊎◌, ◌∙◌, none, false, if◌then◌else◌, ◌&&◌, some, ◌==◌, inr, ◌≡◌,
  Bool-cases, All, inl, ℕ, List, Bytes,
}

-- A file in a directory has a live directory.
abbrev pub HasParents : List FileMetadata → Type 0
HasParents fs =
    (id : Bytes) (f : FileMetadata)
    → live_file id fs ≡ some f
    → is_empty f.parent_id ≡ false
    → (d : FileMetadata) × (live_file f.parent_id fs ≡ some d) × (d.is_dir ≡ true)

pub record IsRooted (fs : List FileMetadata) : Type 0 where
  pub keyed : IsKeyed fs
  pub parents : HasParents fs

-- no live file is in the directory
abbrev pub NoChild : Bytes → List FileMetadata → Type 0
NoChild id fs =
    (k : Bytes) (g : FileMetadata)
    → live_file k fs ≡ some g
    → is_empty g.parent_id ≡ false
    → (g.parent_id == id) ≡ false

-- a file that is no directory has nothing in it
abbrev pub IsPlain : FileMetadata → List FileMetadata → Type 0
IsPlain f fs = f.is_dir ≡ false → NoChild f.file_id fs

abbrev pub IsGone : Bytes → List FileMetadata → Type 0
IsGone id fs = live_file id fs ≡ none

-- every live row of the second table is one of the first
pub record Fewer (fs gs : List FileMetadata) : Type 0 where
  pub rows : (k : Bytes) → (live_file k gs ≡ none) ⊎ (live_file k gs ≡ live_file k fs)

pub Fewer-refl : (fs : List FileMetadata) → Fewer fs fs
Fewer-refl fs = record { rows = λ k. inr refl }

pub Fewer-trans : {fs gs hs : List FileMetadata} → Fewer fs gs → Fewer gs hs → Fewer fs hs
Fewer-trans p q = record {
  rows = λ k. elim (q.rows k) [
    | inl e ↦ inl e
    | inr e ↦ elim (p.rows k) [ inl d ↦ inl (e ∙ d) | inr d ↦ inr (e ∙ d) ]
  ];
}

pub Fewer-found :
    {fs gs : List FileMetadata} (k : Bytes) (g : FileMetadata)
    → Fewer fs gs
    → live_file k gs ≡ some g
    → live_file k fs ≡ some g
Fewer-found k g p e = elim (p.rows k) [ inl d ↦ cc (d, e) | inr d ↦ cc (d, e) ]

pub Fewer-NoChild :
    {fs gs : List FileMetadata} (id : Bytes) → Fewer fs gs → NoChild id fs → NoChild id gs
Fewer-NoChild id p n = λ k g e inside. n k g (Fewer-found k g p e) inside

pub Fewer-IsPlain :
    {fs gs : List FileMetadata} (f : FileMetadata) → Fewer fs gs → IsPlain f fs → IsPlain f gs
Fewer-IsPlain f p n = λ plain. Fewer-NoChild f.file_id p (n plain)

pub Fewer-IsGone :
    {fs gs : List FileMetadata} (id : Bytes) → Fewer fs gs → IsGone id fs → IsGone id gs
Fewer-IsGone id p n = elim (p.rows id) [ inl d ↦ d | inr d ↦ d ∙ n ]

-- Once a directory with nothing in it is removed, the tree is as before but for it.
pub live_file-set_deleted :
    (id k : Bytes) (at : ℕ) (fs : List FileMetadata)
    → live_file k (set_deleted id at fs) ≡ (if id == k then none else live_file k fs)
unfolding live_file set_deleted
live_file-set_deleted id k at [] = ground arith
live_file-set_deleted id k at (f ∷ fs) =
    ground (
      arith,
      eq_iff id k,
      eq_iff f.file_id id,
      eq_iff f.file_id k,
      live_file-set_deleted id k at fs,
    )

pub set_deleted-Fewer :
    (id : Bytes) (at : ℕ) (fs : List FileMetadata) → Fewer fs (set_deleted id at fs)
set_deleted-Fewer id at fs = record {
  rows = λ k. elim (Bool-cases (id == k)) [
    | inl same ↦ inl (rw (live_file-set_deleted id k at fs, same))
    | inr other ↦ inr (rw (live_file-set_deleted id k at fs, other))
  ];
}

set_deleted-HasParents :
    (id : Bytes) (at : ℕ) (fs : List FileMetadata)
    → NoChild id fs
    → HasParents fs
    → HasParents (set_deleted id at fs)
set_deleted-HasParents id at fs n h = λ k f e inside.
    let found = Fewer-found k f (set_deleted-Fewer id at fs) e in
    let (d, there, dir) = h k f found inside in
    let apart : (id == f.parent_id) ≡ false =
      ground (arith, n k f found inside, eq_iff id f.parent_id, eq_iff f.parent_id id) in
    (d, ground (arith, live_file-set_deleted id f.parent_id at fs, apart, there), dir)

pub set_deleted-IsRooted :
    (id : Bytes) (at : ℕ) (fs : List FileMetadata)
    → NoChild id fs
    → IsRooted fs
    → IsRooted (set_deleted id at fs)
unfolding set_deleted
set_deleted-IsRooted id at fs n h = record {
  keyed =
      update_where-IsKeyed (λ f. f.file_id == id && is_live f)
        (λ f. record f { deleted_at = some at }) (λ f. refl) (λ f. refl) fs h.keyed;
  parents = set_deleted-HasParents id at fs n h.parents;
}

-- what is true of every child that is listed is true of every live file in the directory
pub children_of-all :
    (P : FileMetadata → Type 0) (id k : Bytes) (g : FileMetadata) (fs : List FileMetadata)
    → All P (children_of id fs)
    → live_file k fs ≡ some g
    → is_empty g.parent_id ≡ false
    → (g.parent_id == id) ≡ true
    → P g
unfolding children_of live_file
children_of-all P id k g [] a e inside here = ground arith
children_of-all P id k g (f ∷ fs) a e inside here =
    elim (Bool-cases (f.file_id == k && is_live f)) [
      | inl this ↦
          let same : f ≡ g = ground arith in
          subst P same (
            All-select_head P (λ c. c.parent_id == id && (not (is_empty c.parent_id) && is_live c))
              f fs (ground (arith, same)) a)
      | inr other ↦
          children_of-all P id k g fs
            (All-select_tail P (λ c. c.parent_id == id && (not (is_empty c.parent_id) && is_live c))
              f fs a)
            (ground arith) inside here
    ]

-- a listed child is the live row of its identifier
pub children_of-live :
    (id : Bytes) (fs : List FileMetadata)
    → IsKeyed fs
    → All (λ c. live_file c.file_id fs ≡ some c) (children_of id fs)
unfolding children_of live_file
children_of-live id [] h = tt
children_of-live id (f ∷ fs) h =
    All-select_cons (λ c. live_file c.file_id (f ∷ fs) ≡ some c)
      (λ c. c.parent_id == id && (not (is_empty c.parent_id) && is_live c)) f fs
      (λ e. ground (arith, eq_refl f.file_id))
      (All-weaken (λ c. live_file c.file_id fs ≡ some c)
        (λ c. live_file c.file_id (f ∷ fs) ≡ some c)
        (λ c e. ground (arith, e, h.0, eq_iff f.file_id c.file_id, live_file_absent c.file_id fs))
        (children_of id fs) (children_of-live id fs h.1))
