-- ===== src/Upload/Trees/Orphans.antt =====
-- Trash leaves no file behind in a directory that is gone.
use fileupload.Upload.Delete.{owned}
use fileupload.Upload.Delete.References.{get_file-answered, get_file-failed, live_file-id}
use fileupload.Meta.Files.{set_deleted, live_file, children_of}
use fileupload.World.Inversion.{bind_after_err, bind_after_ok, Result-cases}
use fileupload.Upload.Trees.Rooted.{
  set_deleted-IsRooted, set_deleted-Fewer, live_file-set_deleted, children_of-live, Fewer-trans,
  children_of-all, Fewer-IsGone, Fewer-found, Fewer-IsPlain, Fewer-refl, NoChild, IsPlain, IsGone,
  IsRooted, Fewer,
}
use fileupload.Upload.Trees.Bin.{trash_now, trash, trash_children, trash_tree, for_each}
use fileupload.Store.{by_name, list_children, move_file_to_trash}
use fileupload.Domain.{
  forbidden, not_found, backend, ok, err, out_of_fuel, DomainError, Result, FileMetadata,
}
use fileupload.World.{after, result, World, Exec, ◌>>=◌, ◌>>◌}
use std.Path.{subst}
use fileupload.Base.{
  Option-cases, eq_refl, refl, Option, none, All-sorted, All-sort_by, eq_iff, [], arith, sort_by,
  sym, some, ◌+◌, zero, inr, inl, All-weaken, ◌∷◌, suc, ◌==◌, Bool-cases, All, ◌≡◌, ℕ, List, Bytes,
}

-- What an action makes of the live files: none is new, the tree stays whole, and where the action
-- succeeds, `Q` holds.
record Clears (Q : List FileMetadata → Type 0) (fs : List FileMetadata)
    (o : Result (Unit {0}) × World) : Type 0 where
  fewer : Fewer fs o.1.db.files
  rooted : IsRooted o.1.db.files
  cleared : o.0 ≡ ok tt → Q o.1.db.files

-- a failure is enough of a success
Clears-failed :
    (Q : List FileMetadata → Type 0) (fs : List FileMetadata) (e : DomainError) (w : World)
    → Fewer fs w.db.files
    → IsRooted w.db.files
    → Clears Q fs (err e, w)
Clears-failed Q fs e w p r = record { fewer = p; rooted = r; cleared = λ h. cc }

-- one action after another
Clears-then :
    (Q R : List FileMetadata → Type 0) (m n : Exec (Unit {0})) (fs : List FileMetadata) (w : World)
    → Clears Q fs (m w)
    → ((v : World)
        → Fewer fs v.db.files
        → IsRooted v.db.files
        → Q v.db.files
        → Clears R v.db.files (n v))
    → Clears R fs ((m >> n) w)
Clears-then Q R m n fs w h k = elim (Result-cases (result m w)) [
  | inl (u, e) ↦
      let rest = k (after m w) h.fewer h.rooted (h.cleared e) in
      subst (Clears R fs) (sym (bind_after_ok m (λ _. n) w u e)) (record {
        fewer = Fewer-trans h.fewer rest.fewer;
        rooted = rest.rooted;
        cleared = rest.cleared;
      })
  | inr (x, e) ↦
      subst (Clears R fs) (sym (bind_after_err m (λ _. n) w x e))
        (Clears-failed R fs x (after m w) h.fewer h.rooted)
]

-- what the recursion is to do with a child
abbrev Trashes : (FileMetadata → Exec (Unit {0})) → Type 0
Trashes go =
    (c : FileMetadata) (w : World)
    → IsRooted w.db.files
    → IsPlain c w.db.files
    → Clears (IsGone c.file_id) w.db.files (go c w)

for_each-Clears :
    (go : FileMetadata → Exec (Unit {0})) (cs : List FileMetadata) (w : World)
    → Trashes go
    → IsRooted w.db.files
    → All (λ c. IsPlain c w.db.files) cs
    → Clears (λ fs. All (λ c. IsGone c.file_id fs) cs) w.db.files (for_each go cs w)
unfolding for_each
for_each-Clears go [] w t r plain = record {
  fewer = Fewer-refl w.db.files;
  rooted = r;
  cleared = λ _. tt;
}
for_each-Clears go (c ∷ cs) w t r plain =
    Clears-then (IsGone c.file_id) (λ fs. All (λ c. IsGone c.file_id fs) (c ∷ cs)) (go c)
      (for_each go cs) w.db.files w (t c w r plain.0)
      λ v p rv gone.
        let rest = for_each-Clears go cs v t rv (
          All-weaken (λ c. IsPlain c w.db.files) (λ c. IsPlain c v.db.files)
            (λ d. Fewer-IsPlain d p) cs plain.1) in
        record {
          fewer = rest.fewer;
          rooted = rest.rooted;
          cleared = λ e. (Fewer-IsGone c.file_id rest.fewer gone, rest.cleared e);
        }

-- a live file has nothing in it, unless it is a directory
live-IsPlain :
    (f : FileMetadata) (fs : List FileMetadata)
    → IsRooted fs
    → live_file f.file_id fs ≡ some f
    → IsPlain f fs
live-IsPlain f fs r e = λ plain k g found inside. elim (Bool-cases (g.parent_id == f.file_id)) [
  | inl here ↦
      let (d, there, dir) = r.parents k g found inside in
      ground (arith, eq_iff g.parent_id f.file_id, here, there, dir, e, plain)
  | inr other ↦ other
]

children-IsPlain :
    (id : Bytes) (fs : List FileMetadata)
    → IsRooted fs
    → All (λ c. IsPlain c fs) (children_of id fs)
children-IsPlain id fs r =
    All-weaken (λ c. live_file c.file_id fs ≡ some c) (λ c. IsPlain c fs)
      (λ c e. live-IsPlain c fs r e) (children_of id fs) (children_of-live id fs r.keyed)

-- once every listed child is gone, nothing is in the directory
children-gone :
    (id : Bytes) (fs gs : List FileMetadata)
    → Fewer fs gs
    → All (λ c. IsGone c.file_id gs) (children_of id fs)
    → NoChild id gs
children-gone id fs gs p gone = λ k g found inside. elim (Bool-cases (g.parent_id == id)) [
  | inl here ↦
      let there = Fewer-found k g p found in
      let lost = children_of-all (λ c. IsGone c.file_id gs) id k g fs gone there inside here in
      ground (arith, lost, found, live_file-id k fs g there)
  | inr other ↦ other
]

list-Clears :
    (go : FileMetadata → Exec (Unit {0})) (id : Bytes) (w : World)
    → Trashes go
    → IsRooted w.db.files
    → Clears (NoChild id) w.db.files ((list_children id >>= for_each go) w)
unfolding list_children
list-Clears go id w t r = elim (Bool-cases (w.fails w.calls)) [
  | inl down ↦ rw down (
      Clears-failed (NoChild id) w.db.files backend (record w { calls = w.calls + 1 })
        (Fewer-refl w.db.files) r)
  | inr up ↦ rw up (
      let cs = children_of id w.db.files in
      let h =
        for_each-Clears go (sort_by by_name cs) (record w { calls = w.calls + 1 }) t r
          (All-sort_by (λ c. IsPlain c w.db.files) by_name cs (children-IsPlain id w.db.files r)) in
      record {
        fewer = h.fewer;
        rooted = h.rooted;
        cleared = λ e.
            children-gone id w.db.files _ h.fewer
              (All-sorted (λ c. IsGone c.file_id _) by_name cs (h.cleared e));
      })
]

trash_children-Clears :
    (go : FileMetadata → Exec (Unit {0})) (f : FileMetadata) (w : World)
    → Trashes go
    → IsRooted w.db.files
    → IsPlain f w.db.files
    → Clears (NoChild f.file_id) w.db.files (trash_children go f w)
unfolding trash_children
trash_children-Clears go f w t r plain = elim (Bool-cases f.is_dir) [
  | inl dir ↦ rw dir (list-Clears go f.file_id w t r)
  | inr file ↦
      rw file (record { fewer = Fewer-refl w.db.files; rooted = r; cleared = λ _. plain file })
]

move-Clears :
    (id : Bytes) (at : ℕ) (w : World)
    → IsRooted w.db.files
    → NoChild id w.db.files
    → Clears (IsGone id) w.db.files (move_file_to_trash id at w)
unfolding move_file_to_trash
move-Clears id at w r empty =
    let row_gone : live_file id (set_deleted id at w.db.files) ≡ none =
      rw (live_file-set_deleted id id at w.db.files, eq_refl id) in
    let moved : (o : Result (Unit {0}))
        → Clears (IsGone id) w.db.files (
          o,
          record w {
            db = record w.db { files = set_deleted id at w.db.files };
            calls = w.calls + 1;
          },
        ) =
      λ o. record {
        fewer = set_deleted-Fewer id at w.db.files;
        rooted = set_deleted-IsRooted id at w.db.files empty r;
        cleared = λ _. row_gone;
      } in
    elim (Bool-cases (w.fails w.calls)) [
      | inl down ↦ rw down (
          Clears-failed (IsGone id) w.db.files backend (record w { calls = w.calls + 1 })
            (Fewer-refl w.db.files) r)
      | inr up ↦ elim (Option-cases (live_file id w.db.files)) [
        | inl absent ↦ rw (up, absent) (moved (err not_found))
        | inr (f, there) ↦ rw (up, there) (moved (ok tt))
      ]
    ]

trash_tree-Clears : (fuel at : ℕ) → Trashes (trash_tree fuel at)
unfolding trash_tree
trash_tree-Clears zero at = λ f w r plain.
    Clears-failed (IsGone f.file_id) w.db.files out_of_fuel w (Fewer-refl w.db.files) r
trash_tree-Clears (suc fuel) at = λ f w r plain.
    Clears-then (NoChild f.file_id) (IsGone f.file_id) (trash_children (trash_tree fuel at) f)
      (move_file_to_trash f.file_id at) w.db.files w
      (trash_children-Clears (trash_tree fuel at) f w (trash_tree-Clears fuel at) r plain)
      λ v p rv empty. move-Clears f.file_id at v rv empty

found-Clears :
    (fuel : ℕ) (id ns : Bytes) (found : Option FileMetadata) (w : World)
    → live_file id w.db.files ≡ found
    → IsRooted w.db.files
    → Clears (IsGone id) w.db.files ((owned ns found >>= trash_now fuel) w)
unfolding owned trash_now
found-Clears fuel id ns none w e r =
    Clears-failed (IsGone id) w.db.files not_found w (Fewer-refl w.db.files) r
found-Clears fuel id ns (some f) w e r = elim (Bool-cases (f.namespace == ns)) [
  | inl mine ↦
      let same = live_file-id id w.db.files f e in
      rw mine (
        subst (λ i. Clears (IsGone i) w.db.files (trash_tree fuel w.now f w)) same
          (trash_tree-Clears fuel w.now f w r (
            live-IsPlain f w.db.files r
              (subst (λ i. live_file i w.db.files ≡ some f) (sym same) e))))
  | inr other ↦
      rw other (Clears-failed (IsGone id) w.db.files forbidden w (Fewer-refl w.db.files) r)
]

trash-Clears :
    (fuel : ℕ) (id ns : Bytes) (w : World)
    → IsRooted w.db.files
    → Clears (IsGone id) w.db.files (trash fuel id ns w)
unfolding trash
trash-Clears fuel id ns w r = elim (Bool-cases (w.fails w.calls)) [
  | inl down ↦ rw (get_file-failed id w down) (
      Clears-failed (IsGone id) w.db.files backend (record w { calls = w.calls + 1 })
        (Fewer-refl w.db.files) r)
  | inr up ↦
      rw (get_file-answered id w up) (
        found-Clears fuel id ns (live_file id w.db.files) (record w { calls = w.calls + 1 }) refl r)
]

-- If identifiers are unique and every live file in a directory has a live directory for its parent,
-- then this is so after Trash as well, whichever backend calls fail and wherever it stops. Trash makes
-- no file live that was not, and where it succeeds its target is not live.
pub trash-IsRooted :
    (fuel : ℕ) (id ns : Bytes) (w : World)
    → IsRooted w.db.files
    → let o = trash fuel id ns w in
      IsRooted o.1.db.files
      × Fewer w.db.files o.1.db.files
      × (o.0 ≡ ok tt → live_file id o.1.db.files ≡ none)
trash-IsRooted fuel id ns w r =
    let h = trash-Clears fuel id ns w r in (h.rooted, h.fewer, h.cleared)
