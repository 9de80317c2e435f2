-- ===== src/Upload/Names/Clean.antt =====
-- internal/domain/upload.go: what safeStorageName lets through.
use fileupload.Storage.Paths.{slash}
use fileupload.Base.{
  eqb_iff, inr, inl, ◌||◌, bytes, ◌⊎◌, ltb, if◌then◌else◌, refl, zero, [], none, length, ◌-◌, arith,
  suc, take, some, ◌∷◌, ◌++◌, eqb, drop, update_where, not, false, true, ◌≢◌, Option, is_empty, ◌≡◌,
  select, Bool, Bytes, ℕ,
}
use fileupload.Upload.Names.{
  base_name, safe_storage_name, underscore, last_dot, is_slash, last_part, avoid_device,
  is_reserved, shorten, has_byte, trim_right, or_slash, or_file, is_trailing, extension_at,
}

reserved_ne : (b : ℕ) → is_reserved b ≡ true → b ≢ underscore
unfolding is_reserved
reserved_ne b h e = ground arith

module _ (b : ℕ) where
  has_byte-append :
      (s t : Bytes) → has_byte b s ≡ false → has_byte b t ≡ false → has_byte b (s ++ t) ≡ false
  unfolding has_byte
  has_byte-append [] t hs ht = ht
  has_byte-append (c ∷ s) t hs ht = ground (arith, has_byte-append s t)

  has_byte-select :
      (p : ℕ → Bool) (s : Bytes) → has_byte b s ≡ false → has_byte b (select p s) ≡ false
  unfolding has_byte
  has_byte-select p [] h = refl
  has_byte-select p (c ∷ s) h = ground (arith, has_byte-select p s)

  has_byte-trim_right :
      (p : ℕ → Bool) (s : Bytes) → has_byte b s ≡ false → has_byte b (trim_right p s) ≡ false
  unfolding has_byte trim_right
  has_byte-trim_right p [] h = refl
  has_byte-trim_right p (c ∷ s) h = ground (arith, has_byte-trim_right p s)

  has_byte-take : (n : ℕ) (s : Bytes) → has_byte b s ≡ false → has_byte b (take n s) ≡ false
  unfolding has_byte
  has_byte-take zero s h = refl
  has_byte-take (suc n) [] h = refl
  has_byte-take (suc n) (c ∷ s) h = ground (arith, has_byte-take n s)

  has_byte-drop : (n : ℕ) (s : Bytes) → has_byte b s ≡ false → has_byte b (drop n s) ≡ false
  unfolding has_byte
  has_byte-drop zero s h = h
  has_byte-drop (suc n) [] h = refl
  has_byte-drop (suc n) (c ∷ s) h = ground (arith, has_byte-drop n s)

  has_byte-extension :
      (s : Bytes) (o : Option ℕ) → has_byte b s ≡ false → has_byte b (extension_at s o) ≡ false
  unfolding has_byte
  has_byte-extension s none h = refl
  has_byte-extension s (some zero) h = refl
  has_byte-extension s (some (suc i)) h =
      has_byte-take 20 (drop (suc i) s) (has_byte-drop (suc i) s h)

  has_byte-shorten : (s : Bytes) → has_byte b s ≡ false → has_byte b (shorten s) ≡ false
  unfolding shorten
  has_byte-shorten s h =
      let ext = extension_at s (last_dot s) in
      let room = 200 - length ext in
      let keep = if ltb room 10 then 10 else room in
      ground (
        arith,
        has_byte-append (take keep s) ext (has_byte-take keep s h)
            (has_byte-extension s (last_dot s) h),
      )

  has_byte-avoid_device :
      (s : Bytes) → b ≢ underscore → has_byte b s ≡ false → has_byte b (avoid_device s) ≡ false
  unfolding avoid_device has_byte
  has_byte-avoid_device s n h = ground arith

  -- a reserved byte is replaced
  has_byte-replace_reserved :
      (s : Bytes)
      → is_reserved b ≡ true
      → has_byte b (update_where is_reserved (λ _. underscore) s) ≡ false
  unfolding has_byte
  has_byte-replace_reserved [] r = refl
  has_byte-replace_reserved (c ∷ s) r =
      ground (arith, has_byte-replace_reserved s r, reserved_ne b r, eqb_iff c b)

  has_byte-replace :
      (s : Bytes)
      → b ≢ underscore
      → has_byte b s ≡ false
      → has_byte b (update_where is_reserved (λ _. underscore) s) ≡ false
  unfolding has_byte
  has_byte-replace [] n h = refl
  has_byte-replace (c ∷ s) n h = ground (arith, has_byte-replace s n)

nul_free : (s : Bytes) → has_byte 0 (select (λ b. not (eqb b 0)) s) ≡ false
unfolding has_byte
nul_free [] = refl
nul_free (c ∷ s) = ground (arith, nul_free s)

slash_free : (s : Bytes) → has_byte slash (last_part s) ≡ false
unfolding has_byte last_part
slash_free [] = refl
slash_free (c ∷ s) = ground (arith, slash_free s)

-- Behind the last '/' of a text that does not end in one stands something.
last_part_trimmed :
    (s : Bytes)
    → is_empty (trim_right is_slash s) ≡ false
    → is_empty (last_part (trim_right is_slash s)) ≡ false
unfolding trim_right last_part
last_part_trimmed [] h = h
last_part_trimmed (c ∷ s) h = ground (arith, last_part_trimmed s)

-- a byte that may not stand in a name: NUL, '/', or one that Windows reserves
abbrev pub is_unsafe : ℕ → Bool
is_unsafe b = is_reserved b || (eqb b slash || eqb b 0)

or_slash_free :
    (s : Bytes)
    → is_empty s ≡ false
    → has_byte slash s ≡ false
    → has_byte slash (or_slash s) ≡ false
or_slash_free [] n h = absurd (ground arith)
or_slash_free (c ∷ s) n h = h

base_name-slash_free :
    (name : Bytes)
    → is_empty (trim_right is_slash name) ≡ false
    → has_byte slash (base_name name) ≡ false
unfolding base_name
base_name-slash_free [] n = absurd (unfold trim_right in ground arith)
base_name-slash_free (c ∷ s) n =
    or_slash_free (last_part (trim_right is_slash (c ∷ s))) (last_part_trimmed (c ∷ s) n)
      (slash_free (trim_right is_slash (c ∷ s)))

-- the text before the last steps has no NUL, and no '/' unless the name is made of them
or_file-clean : (b : ℕ) (s : Bytes) → is_reserved b ≡ true → has_byte b (or_file s) ≡ false
unfolding is_reserved has_byte
or_file-clean b [] r = ground arith
or_file-clean b (c ∷ s) r =
    has_byte-shorten b _
      (has_byte-avoid_device b _ (reserved_ne b r) (has_byte-replace_reserved b (c ∷ s) r))

or_file-keeps :
    (b : ℕ) (s : Bytes)
    → b ≢ underscore
    → has_byte b (bytes "file") ≡ false
    → has_byte b s ≡ false
    → has_byte b (or_file s) ≡ false
or_file-keeps b [] n f h = f
or_file-keeps b (c ∷ s) n f h =
    has_byte-shorten b _ (has_byte-avoid_device b _ n (has_byte-replace b (c ∷ s) n h))

unsafe_cases : (b : ℕ) → is_unsafe b ≡ true → (is_reserved b ≡ true) ⊎ ((b ≡ slash) ⊎ (b ≡ 0))
unsafe_cases b h = ground arith

not_in_file : (b : ℕ) → is_unsafe b ≡ true → has_byte b (bytes "file") ≡ false
unfolding is_reserved has_byte
not_in_file b h = ground arith

-- A storage name holds no NUL, no '/' and no byte that Windows reserves, whatever the user sends,
-- unless the text consists of '/' only.
pub safe_storage_name-clean :
    (b : ℕ) (name : Bytes)
    → is_unsafe b ≡ true
    → is_empty (trim_right is_slash name) ≡ false
    → has_byte b (safe_storage_name name) ≡ false
unfolding safe_storage_name
safe_storage_name-clean b name u n = ground (arith, tail_clean, not_in_file b u)
  where
    base : Bytes
    base = select (λ c. not (eqb c 0)) (base_name name)

    tail_clean : has_byte b (or_file (trim_right is_trailing base)) ≡ false
    tail_clean = elim (unsafe_cases b u) [
      | inl r ↦ or_file-clean b (trim_right is_trailing base) r
      | inr (inl e) ↦ or_file-keeps b _ (ground arith) (not_in_file b u) (
          has_byte-trim_right b is_trailing base
            (has_byte-select b _ (base_name name) (rw e (base_name-slash_free name n))))
      | inr (inr e) ↦
          or_file-keeps b _ (ground arith) (not_in_file b u)
            (has_byte-trim_right b is_trailing base (rw e (nul_free (base_name name))))
    ]
