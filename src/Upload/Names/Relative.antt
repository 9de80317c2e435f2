-- ===== src/Upload/Names/Relative.antt =====
-- internal/domain/upload.go: the entries of a directory manifest against the checks of the store.
use fileupload.Domain.{ok}
use fileupload.Base.{
  ◌==◌, ◌&&◌, is_empty, not, refl, eqb_iff, select, arith, [], ◌∷◌, false, if◌then◌else◌, true, ℕ,
  ◌≡◌, is_nil, List, Bytes,
}
use fileupload.Upload.Names.{has_byte, is_safe_relative_path, good_parts}
use fileupload.Storage.Paths.{
  dot, slash, dotdot, resolve, has_part, normalize, join_path, split_path, push_byte, of_parts,
}

join-push_byte :
    (c : ℕ) (ps : List Bytes)
    → join_path (push_byte c ps) ≡ (if is_nil ps then c ∷ [] else c ∷ join_path ps)
unfolding join_path push_byte
join-push_byte c [] = refl
join-push_byte c (p ∷ []) = ground (arith, eqb_iff c slash)
join-push_byte c (p ∷ q ∷ ps) = ground (arith, eqb_iff c slash)

split_nonempty : (s : Bytes) → is_nil (split_path s) ≡ false
unfolding split_path
split_nonempty [] = refl
split_nonempty (c ∷ s) = nonempty c (split_path s)
  where
    nonempty : (c : ℕ) (ps : List Bytes) → is_nil (push_byte c ps) ≡ false
    nonempty c [] = refl
    nonempty c (p ∷ ps) = ground arith

-- strings.Join undoes strings.Split.
pub join-split : (s : Bytes) → join_path (split_path s) ≡ s
unfolding split_path join_path
join-split [] = refl
join-split (c ∷ s) = ground (arith, join-push_byte c (split_path s), split_nonempty s, join-split s)

clean_good :
    (ps : List Bytes)
    → good_parts ps ≡ true
    → select (λ p. not (is_empty p) && not (p == dot)) ps ≡ ps
unfolding good_parts
clean_good [] g = refl
clean_good (p ∷ ps) g = ground (arith, clean_good ps)

good_no_dotdot : (ps : List Bytes) → good_parts ps ≡ true → has_part dotdot ps ≡ false
unfolding good_parts has_part
good_no_dotdot [] g = refl
good_no_dotdot (p ∷ ps) g = ground (arith, good_no_dotdot ps)

normalize_id : (s : Bytes) → has_byte b'\\' s ≡ false → normalize s ≡ s
unfolding normalize has_byte
normalize_id [] h = refl
normalize_id (c ∷ s) h = ground (arith, normalize_id s)

of_parts-join : (ps : List Bytes) → is_nil ps ≡ false → of_parts ps ≡ ok (join_path ps)
of_parts-join [] h = absurd (ground arith)
of_parts-join (p ∷ ps) h = refl

-- A path that passes isSafeRelativePath passes the store's checks, and names the object that it
-- spells: it is not cleaned into another path and cannot climb out of the root.
pub safe_path-resolve : (s : Bytes) → is_safe_relative_path s ≡ true → resolve s ≡ ok s
unfolding is_safe_relative_path resolve
safe_path-resolve s h = ground (
  arith,
  join-split s,
  split_nonempty s,
  clean_good (split_path s),
  good_no_dotdot (split_path s),
  normalize_id s,
  of_parts-join (split_path s),
)
