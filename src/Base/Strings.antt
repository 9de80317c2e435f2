-- ===== src/Base/Strings.antt =====
-- A Go string is a sequence of bytes. Identifiers, paths and digests are such sequences.
use Prim.Native.Char.{code}
use Prim.Native.String.{String}
use fileupload.Base.Core.{ℕ, ◌≡◌, refl, ◌↔◌, Bool, true, false, ◌&&◌, List, [], ◌∷◌, arith}
use fileupload.Base.Tests.{eqb, eqb_iff}

abbrev pub Bytes : Type 0
Bytes = List ℕ

-- The bytes of an ASCII literal.
abbrev pub bytes : String → Bytes
bytes String.[] = []
bytes (String.◌∷◌ c s) = code c ∷ bytes s

-- s == t
infix 50 ◌==◌
unfoldable pub ◌==◌ : Bytes → Bytes → Bool
[] == [] = true
[] == (y ∷ ys) = false
(x ∷ xs) == [] = false
(x ∷ xs) == (y ∷ ys) = eqb x y && xs == ys

-- s == ""
abbrev pub is_empty : Bytes → Bool
is_empty [] = true
is_empty (x ∷ xs) = false

pub eq→path : (s t : Bytes) → (s == t) ≡ true → s ≡ t
unfolding ◌==◌
eq→path [] [] h = refl
eq→path [] (y ∷ ys) h = ground arith
eq→path (x ∷ xs) [] h = ground arith
eq→path (x ∷ xs) (y ∷ ys) h = ground (arith, eq→path xs ys, eqb_iff x y)

pub eq_refl : (s : Bytes) → (s == s) ≡ true
unfolding ◌==◌
eq_refl [] = refl
eq_refl (x ∷ xs) = ground (arith, eq_refl xs)

pub eq_iff : (s t : Bytes) → ((s == t) ≡ true) ↔ (s ≡ t)
eq_iff s t = (eq→path s t, λ p. rw p (eq_refl t))
