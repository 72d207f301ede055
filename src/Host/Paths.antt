-- ===== src/Host/Paths.antt =====
-- The functions of Go's package path/filepath that internal/hostpath.go calls, on Unix paths.
pub mod Below
pub mod Plain
use aurforge.Common.{
  Text, codes, Bool, true, false, ◌||◌, List, [], ◌∷◌, ◌++◌, Option, none, some, if◌then◌else◌,
  text_eq, has_prefix, split, join, map,
}
use mathlib.Core.List.{reverse}

-- filepath.IsAbs
unfoldable pub is_abs : Text → Bool
unfolding has_prefix
is_abs path = has_prefix (codes "/") path

-- The parts of a path as filepath.Clean leaves them, the last one first.
abbrev pub pop : Bool → List Text → List Text
pop rooted [] = if rooted then [] else codes ".." ∷ []
pop rooted (part ∷ parts) = if text_eq part (codes "..") then codes ".." ∷ part ∷ parts else parts

unfoldable pub push_part : Bool → Text → List Text → List Text
push_part rooted part stack =
    if text_eq part [] || text_eq part (codes ".")
    then stack
    else if text_eq part (codes "..")
    then pop rooted stack
    else part ∷ stack

unfoldable pub push_parts : Bool → List Text → List Text → List Text
unfolding push_part
push_parts rooted [] stack = stack
push_parts rooted (part ∷ parts) stack = push_parts rooted parts (push_part rooted part stack)

unfoldable pub clean_parts : Text → List Text
unfolding push_parts is_abs
clean_parts path = reverse (push_parts (is_abs path) (split b'/' path) [])

abbrev pub relative_text : List Text → Text
relative_text [] = codes "."
relative_text (part ∷ parts) = join b'/' (part ∷ parts)

-- filepath.Clean
unfoldable pub clean : Text → Text
unfolding clean_parts
clean path =
    if is_abs path then b'/' ∷ join b'/' (clean_parts path) else relative_text (clean_parts path)

-- filepath.Join of two elements; an empty one is left out.
unfoldable pub join_path : Text → Text → Text
unfolding clean
join_path [] [] = []
join_path [] (c ∷ path) = clean (c ∷ path)
join_path (c ∷ base) [] = clean (c ∷ base)
join_path (c ∷ base) (d ∷ path) = clean ((c ∷ base) ++ b'/' ∷ d ∷ path)

-- What is left of two paths behind the parts that they share.
unfoldable pub differ : List Text → List Text → List Text × List Text
differ [] target = ([], target)
differ (b ∷ base) [] = (b ∷ base, [])
differ (b ∷ base) (t ∷ target) =
    let rest = differ base target in if text_eq b t then rest else (b ∷ base, t ∷ target)

abbrev pub climb : List Text × List Text → Option Text
climb ([], target) = some (relative_text target)
climb (b ∷ base, target) =
    if text_eq b (codes "..")
    then none
    else some (join b'/' (map (λ _. codes "..") (b ∷ base) ++ target))

abbrev pub same_root : Bool → Bool → Bool
same_root true b = b
same_root false true = false
same_root false false = true

-- filepath.Rel
unfoldable pub relative_path : Text → Text → Option Text
unfolding clean_parts differ
relative_path base target =
    if same_root (is_abs base) (is_abs target)
    then climb (differ (clean_parts base) (clean_parts target))
    else none
