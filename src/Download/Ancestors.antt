-- ===== src/Download/Ancestors.antt =====
-- internal/domain/download.go: GetAncestors.
use std.Path.{subst}
use fileupload.Meta.Files.{live_file}
use fileupload.Upload.Isolation.{called}
use fileupload.Upload.Delete.References.{live_file-id, get_file-answered, get_file-failed}
use fileupload.Store.{get_file}
use fileupload.Upload.Trash.{is_seen}
use fileupload.Domain.{err, ok, Result, FileMetadata}
use fileupload.World.{attempt, pure, result, World, Exec, ◌>>=◌}
use fileupload.Base.{
  ap, false, ◌⊎◌, All, map, ◌==◌, true, Option-cases, zero, inr, inl, ◌||◌, refl, none, is_empty,
  Bool-cases, ◌≤◌, sym, arith, some, if◌then◌else◌, ◌∙◌, length, suc, ◌≡◌, ◌∷◌, Option, ◌+◌, [], ℕ,
  List, Bytes,
}

-- err != nil || file == nil ends the loop
unfoldable pub climb_next :
    (FileMetadata → Exec (List FileMetadata))
    → List FileMetadata
    → Result (Option FileMetadata)
    → Exec (List FileMetadata)
climb_next up found (err e) = pure found
climb_next up found (ok none) = pure found
climb_next up found (ok (some f)) = up f

-- the loop, with the rounds that are left, and the files found so far, the topmost first
unfoldable pub climb : ℕ → Bytes → List Bytes → List FileMetadata → Exec (List FileMetadata)
unfolding climb_next
climb zero id seen found = pure found
climb (suc rounds) id seen found =
    let up = λ (f : FileMetadata). climb rounds f.parent_id (id ∷ seen) (f ∷ found) in
    if is_empty id || is_seen id seen
    then pure found
    else (do r ← attempt (get_file id); climb_next up found r)

-- GetAncestors
unfoldable pub get_ancestors : Bytes → Exec (List FileMetadata)
unfolding climb
get_ancestors id = climb 100 id [] []

-- each file is in the one before it, and the last one is the file `id`
abbrev pub IsChain : Bytes → List FileMetadata → Type 0
IsChain id [] = Unit {0}
IsChain id (f ∷ []) = f.file_id ≡ id
IsChain id (f ∷ g ∷ fs) = (g.parent_id ≡ f.file_id) × IsChain id (g ∷ fs)

-- where a round goes on
abbrev pub next_of : Bytes → List FileMetadata → Bytes
next_of id [] = id
next_of id (f ∷ fs) = f.parent_id

-- no identifier occurs twice
abbrev pub IsDistinct : List FileMetadata → Type 0
IsDistinct [] = Unit {0}
IsDistinct (f ∷ fs) = All (λ g. (g.file_id == f.file_id) ≡ false) fs × IsDistinct fs

abbrev pub Occurs : Bytes → List FileMetadata → Type 0
Occurs id [] = ⊥
Occurs id (f ∷ fs) = ((f.file_id == id) ≡ true) ⊎ Occurs id fs

-- Why the list `fs` ends: there is no further parent, the next file is one of the list already, it is
-- not there, it cannot be looked up, or there are 100 files.
abbrev pub Ends : Bytes → List FileMetadata → World → Type 0
Ends id fs w =
    (is_empty (next_of id fs) ≡ true)
    ⊎ (Occurs (next_of id fs) fs
        ⊎ ((live_file (next_of id fs) w.db.files ≡ none)
            ⊎ ((w.fails (w.calls + length fs) ≡ true) ⊎ (length fs ≡ 100))))

-- what is found of the ancestors of `id`
pub record IsLineage (id : Bytes) (fs : List FileMetadata) (w : World) : Type 0 where
  pub linked : IsChain id fs
  pub live : All (λ f. live_file f.file_id w.db.files ≡ some f) fs
  pub distinct : IsDistinct fs

seen-Occurs :
    (id : Bytes) (fs : List FileMetadata)
    → is_seen id (map (λ f. f.file_id) fs) ≡ true
    → Occurs id fs
unfolding is_seen
seen-Occurs id [] e = absurd (ground (arith, e))
seen-Occurs id (f ∷ fs) e = elim (Bool-cases (f.file_id == id)) [
  | inl same ↦ inl same
  | inr other ↦ inr (seen-Occurs id fs (ground (arith, other, e)))
]

unseen-All :
    (id : Bytes) (fs : List FileMetadata)
    → is_seen id (map (λ f. f.file_id) fs) ≡ false
    → All (λ g. (g.file_id == id) ≡ false) fs
unfolding is_seen
unseen-All id [] e = tt
unseen-All id (f ∷ fs) e = elim (Bool-cases (f.file_id == id)) [
  | inl same ↦ absurd (ground (arith, same, e))
  | inr other ↦ (other, unseen-All id fs (ground (arith, other, e)))
]

IsChain-cons :
    (id : Bytes) (f : FileMetadata) (fs : List FileMetadata)
    → f.file_id ≡ next_of id fs
    → IsChain id fs
    → IsChain id (f ∷ fs)
IsChain-cons id f [] e h = e
IsChain-cons id f (g ∷ fs) e h = (sym e, h)

-- a run of the loop in the state `v`, once the files `fs` have been found from the state `w` on
record Climbs (id : Bytes) (rounds : ℕ) (fs : List FileMetadata) (w v : World) : Type 0 where
  lineage : IsLineage id fs w
  within : rounds + length fs ≡ 100
  tables : v.db ≡ w.db
  faults : v.fails ≡ w.fails
  calls : v.calls ≡ w.calls + length fs

-- one more file, which is not among them
Climbs-cons :
    (id : Bytes) (rounds : ℕ) (f : FileMetadata) (fs : List FileMetadata) (w v : World)
    → Climbs id (suc rounds) fs w v
    → is_seen (next_of id fs) (map (λ g. g.file_id) fs) ≡ false
    → live_file (next_of id fs) w.db.files ≡ some f
    → Climbs id rounds (f ∷ fs) w (called v)
Climbs-cons id rounds f fs w v h new there =
    let same = live_file-id (next_of id fs) w.db.files f there in
    record {
      lineage = record {
        linked = IsChain-cons id f fs same h.lineage.linked;
        live = (ap (λ x. live_file x w.db.files) same ∙ there, h.lineage.live);
        distinct = (
          subst (λ x. All (λ g. (g.file_id == x) ≡ false) fs) (sym same)
              (unseen-All (next_of id fs) fs new),
          h.lineage.distinct,
        );
      };
      within = omega (arith, h.within);
      tables = h.tables;
      faults = h.faults;
      calls = omega (arith, h.calls);
    }

-- what the loop gives
record Climbed (id : Bytes) (w : World) (o : Result (List FileMetadata) × World) : Type 0 where
  chain : List FileMetadata
  found : o.0 ≡ ok chain
  lineage : IsLineage id chain w
  bounded : length chain ≤ 100
  ends : Ends id chain w

climb-Climbed :
    (rounds : ℕ) (id next : Bytes) (seen : List Bytes) (fs : List FileMetadata) (w v : World)
    → next ≡ next_of id fs
    → seen ≡ map (λ f. f.file_id) fs
    → Climbs id rounds fs w v
    → Climbed id w (climb rounds next seen fs v)
unfolding climb
climb-Climbed zero id next seen fs w v at known h = record {
  chain = fs;
  found = refl;
  lineage = h.lineage;
  bounded = omega (arith, h.within);
  ends = inr (inr (inr (inr (omega (arith, h.within)))));
}
climb-Climbed (suc rounds) id next seen fs w v at known h =
    let stop : (u : World) → Ends id fs w → Climbed id w (ok fs, u) = λ u why. record {
      chain = fs;
      found = refl;
      lineage = h.lineage;
      bounded = omega (arith, h.within);
      ends = why;
    } in
    let row : live_file next v.db.files ≡ live_file (next_of id fs) w.db.files =
      cc (at, h.tables) in
    elim (Bool-cases (is_empty next)) [
      | inl top ↦ rw top (stop v (inl (ap is_empty (sym at) ∙ top)))
      | inr named ↦ elim (Bool-cases (is_seen next seen)) [
        | inl again ↦
            rw (named, again)
              (stop v (
                inr (
                  inl (
                    seen-Occurs (next_of id fs) fs (
                      subst (λ xs. is_seen (next_of id fs) xs ≡ true) known
                        (subst (λ x. is_seen x seen ≡ true) at again))))))
        | inr new ↦ elim (Bool-cases (v.fails v.calls)) [
          | inl down ↦
              rw (named, new, get_file-failed next v down)
                (stop (called v) (
                  inr (
                    inr (
                      inr (
                        inl (
                          let e : w.fails (w.calls + length fs) ≡ true =
                            cc (down, h.faults, h.calls) in
                          e))))))
          | inr up ↦ elim (Option-cases (live_file next v.db.files)) [
            | inl absent ↦
                rw (named, new, get_file-answered next v up, absent)
                  (stop (called v) (inr (inr (inl (sym row ∙ absent)))))
            | inr (f, there) ↦
                rw (named, new, get_file-answered next v up, there)
                  (let there' = sym row ∙ there in
                    let same = live_file-id (next_of id fs) w.db.files f there' in
                    climb-Climbed rounds id f.parent_id (next ∷ seen) (f ∷ fs) w (called v) refl
                      (cc (at, known, same))
                      (Climbs-cons id rounds f fs w v h
                        (subst (λ xs. is_seen (next_of id fs) xs ≡ false) known
                          (subst (λ x. is_seen x seen ≡ false) at new))
                        there'))
          ]
        ]
      ]
    ]

-- GetAncestors always returns, also if a backend call fails or the parents form a cycle. It returns at
-- most 100 live files, none of them twice; each of them is in the directory before it, and the last one
-- is the file that was asked for. The list, which starts with its topmost file, goes on to a file without
-- a parent, and ends earlier only if the next parent is in the list already, is no live file or cannot be
-- looked up, or if there are 100 files; it is empty only if the identifier is, or if the file that was
-- asked for is no live file or cannot be looked up.
pub ancestors-IsChain :
    (id : Bytes) (w : World)
    → (fs : List FileMetadata) × (result (get_ancestors id) w ≡ ok fs)
      × IsLineage id fs w
      × (length fs ≤ 100)
      × Ends id fs w
unfolding get_ancestors
ancestors-IsChain id w =
    let none_yet : Climbs id 100 [] w w = record {
      lineage = record { linked = tt; live = tt; distinct = tt };
      within = refl;
      tables = refl;
      faults = refl;
      calls = omega arith;
    } in
    let r = climb-Climbed 100 id id [] [] w w refl refl none_yet in
    (r.chain, r.found, r.lineage, r.bounded, r.ends)
