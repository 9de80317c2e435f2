-- ===== src/Upload/Names/Bounds.antt =====
-- internal/domain/upload.go: the length of what safeStorageName returns.
use fileupload.Base.{
  length-take, zero, none, ltb, eqb, refl, if◌then◌else◌, drop, not, select, suc, [], length-append,
  ◌∷◌, some, ◌-◌, ◌≡◌, arith, ◌≤◌, update_where, take, length, ◌<◌, Option, ℕ, Bytes,
}
use fileupload.Upload.Names.{
  base_name, underscore, trim_right, is_reserved, last_dot, avoid_device, safe_storage_name,
  shorten, or_file, is_trailing, extension_at,
}

length-extension : (s : Bytes) (o : Option ℕ) → length (extension_at s o) ≤ 20
length-extension s none = omega arith
length-extension s (some zero) = omega arith
length-extension s (some (suc i)) = omega (arith, length-take 20 (drop (suc i) s))

shorten_bounds : (s : Bytes) → 0 < length s → (0 < length (shorten s)) × (length (shorten s) ≤ 200)
unfolding shorten
shorten_bounds s h =
    let ext = extension_at s (last_dot s) in
    let room = 200 - length ext in
    ground (
      arith,
      length-extension s (last_dot s),
      length-append (take (if ltb room 10 then 10 else room) s) ext,
      length-take (if ltb room 10 then 10 else room) s,
    )

length-replace : (s : Bytes) → length (update_where is_reserved (λ _. underscore) s) ≡ length s
length-replace [] = refl
length-replace (c ∷ s) = omega (arith, length-replace s)

avoid_device_grows : (s : Bytes) → length s ≤ length (avoid_device s)
unfolding avoid_device
avoid_device_grows s = ground arith

or_file_bounds : (s : Bytes) → (0 < length (or_file s)) × (length (or_file s) ≤ 200)
or_file_bounds [] = (omega arith, omega arith)
or_file_bounds (c ∷ s) = shorten_bounds _ (
    omega (
      arith,
      length-replace (c ∷ s),
      avoid_device_grows (update_where is_reserved (λ _. underscore) (c ∷ s)),
    ))

-- A storage name is never empty, and at most 200 bytes long.
safe_storage_name_bounds :
    (name : Bytes) → (0 < length (safe_storage_name name)) × (length (safe_storage_name name) ≤ 200)
unfolding safe_storage_name
safe_storage_name_bounds name =
    ground (
      arith,
      or_file_bounds (trim_right is_trailing (select (λ c. not (eqb c 0)) (base_name name))),
    )
