-- ===== src/Upload/Move/Ancestors.antt =====
-- The check of MoveFile that a directory does not come under itself.
use fileupload.Store.{get_file}
use fileupload.Upload.Isolation.{called}
use fileupload.World.{◌>>=◌, result, World, Exec}
use fileupload.Upload.Delete.References.{get_file-answered, get_file-failed, live_file-id}
use fileupload.Upload.Move.{walk_up, walk_next}
use std.Path.{subst}
use fileupload.Upload.Trash.{is_seen}
use fileupload.Meta.Files.{live_file}
use fileupload.Domain.{ok, FileMetadata}
use fileupload.Base.{
  ◌≢◌, [], sym, eq_refl, eq_iff, ◌∷◌, ◌||◌, Option-cases, false, inr, arith, ◌==◌, true, inl,
  Bool-cases, Bytes, refl, zero, is_empty, if◌then◌else◌, some, suc, ◌≡◌, Option, none, List, ℕ,
}

-- the parent of a file
abbrev pub parent : List FileMetadata → FileMetadata → Option FileMetadata
parent fs f = if is_empty f.parent_id then none else live_file f.parent_id fs

abbrev pub parent_of : List FileMetadata → Option FileMetadata → Option FileMetadata
parent_of fs none = none
parent_of fs (some f) = parent fs f

-- the ancestor that is so many parents up
unfoldable pub ancestor : ℕ → List FileMetadata → Option FileMetadata → Option FileMetadata
ancestor zero fs o = o
ancestor (suc n) fs o = ancestor n fs (parent_of fs o)

ancestor-none : (n : ℕ) (fs : List FileMetadata) → ancestor n fs none ≡ none
unfolding ancestor
ancestor-none zero fs = refl
ancestor-none (suc n) fs = ancestor-none n fs

pub parent-row :
    (fs : List FileMetadata) (f p : FileMetadata)
    → parent fs f ≡ some p
    → live_file p.file_id fs ≡ some p
parent-row fs f p e = elim (Bool-cases (is_empty f.parent_id)) [
  | inl none_above ↦ ground (arith, none_above, e)
  | inr above ↦
      let found : live_file f.parent_id fs ≡ some p = ground (arith, above, e) in
      subst (λ i. live_file i fs ≡ some p) (sym (live_file-id f.parent_id fs p found)) found
]

-- what the walk has passed: none of it is the file, and the parents are passed or come next
pub record Trail (id : Bytes) (fs : List FileMetadata) (seen : List Bytes) (cur : FileMetadata)
    : Type 0 where
  pub row : live_file cur.file_id fs ≡ some cur
  pub other : (s : Bytes) → is_seen s seen ≡ true → s == id ≡ false
  pub up :
      (s : Bytes) (f p : FileMetadata)
      → is_seen s seen ≡ true
      → live_file s fs ≡ some f
      → parent fs f ≡ some p
      → (is_seen p.file_id seen || p.file_id == cur.file_id) ≡ true

module _ (id : Bytes) (fs : List FileMetadata) (seen : List Bytes) (cur : FileMetadata) where
  parent-seen :
      (f p : FileMetadata)
      → Trail id fs seen cur
      → is_seen cur.file_id seen ≡ true
      → is_seen f.file_id seen ≡ true
      → live_file f.file_id fs ≡ some f
      → parent fs f ≡ some p
      → is_seen p.file_id seen ≡ true
  parent-seen f p t c s r e = elim (Bool-cases (p.file_id == cur.file_id)) [
    | inl same ↦ subst (λ i. is_seen i seen ≡ true) (sym ((eq_iff p.file_id cur.file_id).0 same)) c
    | inr other ↦ ground (arith, other, t.up f.file_id f p s r e)
  ]

  -- a trail that comes back to itself never leads to the file
  closed-Trail :
      (n : ℕ) (f g : FileMetadata)
      → Trail id fs seen cur
      → is_seen cur.file_id seen ≡ true
      → is_seen f.file_id seen ≡ true
      → live_file f.file_id fs ≡ some f
      → ancestor n fs (some f) ≡ some g
      → g.file_id == id ≡ false
  unfolding ancestor
  closed-Trail zero f g t c s r e = ground (arith, t.other f.file_id s, e)
  closed-Trail (suc n) f g t c s r e = elim (Option-cases (parent fs f)) [
    | inl none_above ↦ ground (arith, none_above, e, ancestor-none n fs)
    | inr (p, above) ↦
        closed-Trail n p g t c (parent-seen f p t c s r above) (parent-row fs f p above)
          (subst (λ o. ancestor n fs o ≡ some g) above e)
  ]

  -- one step further
  longer-Trail :
      (p : FileMetadata)
      → Trail id fs seen cur
      → cur.file_id == id ≡ false
      → parent fs cur ≡ some p
      → Trail id fs (cur.file_id ∷ seen) p
  unfolding is_seen
  longer-Trail p t differs above = record {
    row = parent-row fs cur p above;
    other = λ s h. ground (arith, t.other s, eq_iff cur.file_id s, differs, h);
    up = λ s f q h r e. elim (Bool-cases (cur.file_id == s)) [
      | inl same ↦
          ground (arith, same, (eq_iff cur.file_id s).0 same, t.row, r, e, above, eq_refl p.file_id)
      | inr away ↦ ground (
        arith,
        away,
        h,
        t.up s f q,
        r,
        e,
        eq_iff cur.file_id q.file_id,
        eq_iff q.file_id cur.file_id,
      )
    ];
  }

-- no ancestor is the file
abbrev pub Apart : Bytes → List FileMetadata → Option FileMetadata → Type 0
Apart id fs o = (n : ℕ) (g : FileMetadata) → ancestor n fs o ≡ some g → g.file_id == id ≡ false

Apart-step :
    (id : Bytes) (fs : List FileMetadata) (f : FileMetadata)
    → f.file_id == id ≡ false
    → Apart id fs (parent fs f)
    → Apart id fs (some f)
unfolding ancestor
Apart-step id fs f differs above zero g e = ground (arith, differs, e)
Apart-step id fs f differs above (suc n) g e = above n g e

Apart-none : (id : Bytes) (fs : List FileMetadata) → Apart id fs none
Apart-none id fs n g e = ground (arith, ancestor-none n fs, e)

after_parent :
    (id : Bytes) (up : FileMetadata → Exec (Unit {0})) (key : Bytes) (o : Option FileMetadata)
    (w : World) (u : Unit {0})
    → live_file key w.db.files ≡ o
    → ((p : FileMetadata)
        → o ≡ some p
        → result (up p) (called w) ≡ ok u
        → Apart id w.db.files (some p))
    → result (get_file key >>= walk_next up) w ≡ ok u
    → Apart id w.db.files o
unfolding walk_next
after_parent id up key o w u e later r = elim (Bool-cases (w.fails w.calls)) [
  | inl down ↦ ground (arith, get_file-failed key w down, r)
  | inr answered ↦ elim (Option-cases o) [
    | inl none_found ↦ subst (Apart id w.db.files) (sym none_found) (Apart-none id w.db.files)
    | inr (p, is_p) ↦
        subst (Apart id w.db.files) (sym is_p)
          (later p is_p (ground (arith, get_file-answered key w answered, e, is_p, r)))
  ]
]

is_empty-nil : (s : Bytes) → is_empty s ≡ true → s ≡ []
is_empty-nil [] h = refl
is_empty-nil (b ∷ s) h = ground arith

-- the next file of a walk that goes on
walk_step :
    (fuel : ℕ) (id : Bytes) (seen : List Bytes) (cur : FileMetadata) (w : World) (u : Unit {0})
    → is_seen cur.file_id seen ≡ false
    → is_empty cur.file_id ≡ false
    → result (walk_up (suc fuel) id seen cur) w ≡ ok u
    → (cur.file_id == id ≡ false)
      × (is_empty cur.parent_id ≡ false
          → result (get_file cur.parent_id >>= walk_next (walk_up fuel id (cur.file_id ∷ seen))) w
            ≡ ok u)
unfolding walk_up
walk_step fuel id seen cur w u new named r = elim (Bool-cases (cur.file_id == id)) [
  | inl same ↦ ground (arith, same, new, named, r)
  | inr differs ↦ (differs, λ above. ground (arith, differs, new, named, above, r))
]

row_named :
    (f : FileMetadata) (fs : List FileMetadata)
    → live_file [] fs ≡ none
    → live_file f.file_id fs ≡ some f
    → is_empty f.file_id ≡ false
row_named f fs named row = elim (Bool-cases (is_empty f.file_id)) [
  | inl blank ↦ ground (arith, is_empty-nil f.file_id blank, named, row)
  | inr present ↦ present
]

Apart-parent :
    (id : Bytes) (fs : List FileMetadata) (f : FileMetadata)
    → (is_empty f.parent_id ≡ false → Apart id fs (live_file f.parent_id fs))
    → Apart id fs (parent fs f)
Apart-parent id fs f later = elim (Bool-cases (is_empty f.parent_id)) [
  | inl top ↦ λ n g e. Apart-none id fs n g (ground (arith, top, e))
  | inr above ↦ λ n g e. later above n g (ground (arith, above, e))
]

stuck :
    (id : Bytes) (seen : List Bytes) (f : FileMetadata) (w : World) (u : Unit {0})
    → result (walk_up zero id seen f) w ≢ ok u
unfolding walk_up
stuck id seen f w u r = ground arith

pub walk_up-Apart :
    (fuel : ℕ) (id : Bytes) (seen : List Bytes) (cur : FileMetadata) (w : World) (u : Unit {0})
    → live_file [] w.db.files ≡ none
    → Trail id w.db.files seen cur
    → result (walk_up fuel id seen cur) w ≡ ok u
    → Apart id w.db.files (some cur)
walk_up-Apart zero id seen cur w u named t r = absurd (stuck id seen cur w u r)
walk_up-Apart (suc fuel) id seen cur w u named t r = elim (Bool-cases (is_seen cur.file_id seen)) [
  | inl back ↦ λ n g e. closed-Trail id w.db.files seen cur n cur g t back back t.row e
  | inr new ↦
      let has_name : is_empty cur.file_id ≡ false = row_named cur w.db.files named t.row in
      let s = walk_step fuel id seen cur w u new has_name r in
      Apart-step id w.db.files cur s.0 (
        Apart-parent id w.db.files cur (λ above.
          after_parent id (walk_up fuel id (cur.file_id ∷ seen)) cur.parent_id
            (live_file cur.parent_id w.db.files) w u refl
            (λ p is_p r'.
              walk_up-Apart fuel id (cur.file_id ∷ seen) p (called w) u named
                (longer-Trail id w.db.files seen cur p t s.0 (ground (arith, above, is_p))) r')
            (s.1 above)))
]
