-- ===== src/Storage/Paths.antt =====
-- internal/adapters/storage/localfs.go: the lexical checks of absPath, on a system whose separator
-- is '/'. The checks for symbolic links look at the file system and are not modelled.
use fileupload.Base.{
  ℕ, Bool, false, not, ◌&&◌, ◌||◌, List, [], ◌∷◌, ◌++◌, Bytes, ◌==◌, is_empty, eqb, if◌then◌else◌,
  select, update_where,
}
use fileupload.Domain.{Result, ok, err, path_traversal, invalid_argument}

abbrev pub slash : ℕ
slash = b'/'

-- The first part of `c :: rest` split at '/', put in front of the parts of `rest`.
unfoldable pub push_byte : ℕ → List Bytes → List Bytes
push_byte c [] = (c ∷ []) ∷ []
push_byte c (part ∷ parts) = if eqb c slash then [] ∷ part ∷ parts else (c ∷ part) ∷ parts

-- strings.Split(s, "/")
unfoldable pub split_path : Bytes → List Bytes
unfolding push_byte
split_path [] = [] ∷ []
split_path (c ∷ s) = push_byte c (split_path s)

-- strings.Join(parts, "/")
unfoldable pub join_path : List Bytes → Bytes
join_path [] = []
join_path (part ∷ []) = part
join_path (part ∷ q ∷ parts) = part ++ slash ∷ join_path (q ∷ parts)

abbrev pub dot : Bytes
dot = b'.' ∷ []

abbrev pub dotdot : Bytes
dotdot = b'.' ∷ b'.' ∷ []

-- strings.ReplaceAll(s, "\\", "/")
unfoldable pub normalize : Bytes → Bytes
normalize = update_where (λ c. eqb c b'\\') (λ _. slash)

-- some part of the list is the text
unfoldable pub has_part : Bytes → List Bytes → Bool
has_part p [] = false
has_part p (q ∷ qs) = q == p || has_part p qs

unfoldable pub contains_path_traversal : Bytes → Bool
unfolding split_path normalize has_part
contains_path_traversal path = has_part dotdot (split_path (normalize path))

abbrev pub is_abs : Bytes → Bool
is_abs [] = false
is_abs (c ∷ s) = eqb c slash

-- filepath.Clean of a relative path without "..": empty parts and "." drop out. The result is
-- given by its parts; no part is left where Clean returns ".".
unfoldable pub clean_parts : Bytes → List Bytes
unfolding split_path
clean_parts path = select (λ p. not (is_empty p) && not (p == dot)) (split_path path)

abbrev pub of_parts : List Bytes → Result Bytes
of_parts [] = err invalid_argument
of_parts (p ∷ ps) = ok (join_path (p ∷ ps))

-- absPath: the object's path below the root
unfoldable pub resolve : Bytes → Result Bytes
unfolding contains_path_traversal clean_parts join_path
resolve path =
    if is_empty path || (is_abs path || contains_path_traversal path)
    then err path_traversal
    else of_parts (clean_parts path)
