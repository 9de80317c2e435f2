-- ===== src/Upload/Names.antt =====
-- internal/domain/upload.go: safeStorageName, isSafeRelativePath and safeStorageRelativePath;
-- internal/domain/layout.go: FlatPath, HierarchicalPath, ParentPath.
pub mod Clean
pub mod Bounds
pub mod Relative
use fileupload.Storage.Paths.{dotdot, is_abs, join_path, has_part, dot, split_path, slash}
use fileupload.Base.{
  zero, drop, take, suc, ◌==◌, ◌-◌, is_empty, true, false, ◌||◌, some, length, ◌&&◌, not, ltb,
  update_where, [], Bool, leb, eqb, map, none, bytes, List, select, ◌∷◌, if◌then◌else◌, Option,
  ◌++◌, ℕ, Bytes,
}

unfoldable pub has_byte : ℕ → Bytes → Bool
has_byte b [] = false
has_byte b (c ∷ s) = eqb c b || has_byte b s

-- the bytes at the end that pass the test are cut off
unfoldable pub trim_right : (ℕ → Bool) → Bytes → Bytes
trim_right p [] = []
trim_right p (c ∷ s) = let rest = trim_right p s in if is_empty rest && p c then [] else c ∷ rest

-- what stands behind the last '/'
unfoldable pub last_part : Bytes → Bytes
unfolding has_byte
last_part [] = []
last_part (c ∷ s) =
    let rest = last_part s in if has_byte slash s then rest else if eqb c slash then s else c ∷ s

abbrev or_slash : Bytes → Bytes
or_slash [] = slash ∷ []
or_slash (c ∷ s) = c ∷ s

abbrev pub is_slash : ℕ → Bool
is_slash b = eqb b slash

-- filepath.Base
unfoldable pub base_name : Bytes → Bytes
unfolding trim_right last_part
base_name [] = dot
base_name (c ∷ s) = or_slash (last_part (trim_right is_slash (c ∷ s)))

-- \ : * ? " < > |
unfoldable pub is_reserved : ℕ → Bool
is_reserved b =
    eqb b b'\\'
    || (eqb b b':'
        || (eqb b b'*'
            || (eqb b b'?' || (eqb b b'"' || (eqb b b'<' || (eqb b b'>' || eqb b b'|'))))))

-- strings.ToUpper, as far as it can make a device name: no letter outside ASCII has one of theirs
-- as its upper case.
to_upper : ℕ → ℕ
to_upper b = if leb b'a' b && leb b b'z' then b - 32 else b

abbrev device_names : List Bytes
device_names =
    bytes "CON"
    ∷ bytes "PRN"
    ∷ bytes "AUX"
    ∷ bytes "NUL"
    ∷ bytes "CLOCK$"
    ∷ bytes "COM1"
    ∷ bytes "COM2"
    ∷ bytes "COM3"
    ∷ bytes "COM4"
    ∷ bytes "COM5"
    ∷ bytes "COM6"
    ∷ bytes "COM7"
    ∷ bytes "COM8"
    ∷ bytes "COM9"
    ∷ bytes "LPT1"
    ∷ bytes "LPT2"
    ∷ bytes "LPT3"
    ∷ bytes "LPT4"
    ∷ bytes "LPT5"
    ∷ bytes "LPT6"
    ∷ bytes "LPT7"
    ∷ bytes "LPT8"
    ∷ bytes "LPT9"
    ∷ []

abbrev pub underscore : ℕ
underscore = b'_'

unfoldable pub avoid_device : Bytes → Bytes
unfolding to_upper has_part
avoid_device s = if has_part (map to_upper s) device_names then underscore ∷ s else s

-- strings.LastIndex(s, ".")
unfoldable pub last_dot : Bytes → Option ℕ
last_dot [] = none
last_dot (c ∷ s) = elim (last_dot s) [
  | some i ↦ some (suc i)
  | none ↦ (if eqb c b'.' then some 0 else none)
]

abbrev extension_at : Bytes → Option ℕ → Bytes
extension_at s none = []
extension_at s (some zero) = []
extension_at s (some (suc i)) = take 20 (drop (suc i) s)

unfoldable pub shorten : Bytes → Bytes
unfolding last_dot
shorten s =
    if ltb 200 (length s)
    then (let ext = extension_at s (last_dot s) in
        let room = 200 - length ext in take (if ltb room 10 then 10 else room) s ++ ext)
    else s

-- a dot or a space
is_trailing : ℕ → Bool
is_trailing b = eqb b b'.' || eqb b b' '

abbrev or_file : Bytes → Bytes
or_file [] = bytes "file"
or_file (c ∷ s) = shorten (avoid_device (update_where is_reserved (λ _. underscore) (c ∷ s)))

unfoldable pub safe_storage_name : Bytes → Bytes
unfolding base_name is_trailing trim_right is_reserved avoid_device shorten
safe_storage_name name =
    let base = select (λ b. not (eqb b 0)) (base_name name) in
    if is_empty base || (base == dot || base == dotdot)
    then bytes "file"
    else or_file (trim_right is_trailing base)

good_parts : List Bytes → Bool
good_parts [] = true
good_parts (p ∷ ps) = not (is_empty p || (p == dot || p == dotdot)) && good_parts ps

unfoldable pub is_safe_relative_path : Bytes → Bool
unfolding good_parts has_byte split_path
is_safe_relative_path s =
    if is_empty s || (has_byte b'\\' s || (has_byte 0 s || is_abs s))
    then false
    else good_parts (split_path s)

unfoldable pub safe_storage_relative_path : Bytes → Bytes
unfolding split_path join_path safe_storage_name
safe_storage_relative_path s = join_path (map safe_storage_name (split_path s))

unfoldable pub flat_path : Bytes → Bytes → Bytes
flat_path ns name = ns ++ slash ∷ name

unfoldable pub hierarchical_path : Bytes → Bytes → Bytes → Bytes
hierarchical_path ns dir entry = ns ++ slash ∷ (dir ++ slash ∷ entry)
