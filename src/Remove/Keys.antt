-- ===== src/Remove/Keys.antt =====
-- sortedKeys of internal/remove.go: the keys of a set of strings, in the order of their bytes.
use aurforge.Common.{
  Text, text_eq, Bool, true, false, ◌||◌, ◌&&◌, List, [], ◌∷◌, ltb, ◌==◌, if◌then◌else◌,
}

-- The comparison of strings that package sort uses.
unfoldable pub text_lt : Text → Text → Bool
text_lt _ [] = false
text_lt [] (_ ∷ _) = true
text_lt (a ∷ s) (b ∷ t) = ltb a b || (a == b && text_lt s t)

-- Adding a key to a set that is kept sorted.
unfoldable pub insert_key : Text → List Text → List Text
insert_key k [] = k ∷ []
insert_key k (j ∷ js) =
    let rest = insert_key k js in
    if text_lt k j then k ∷ j ∷ js else if text_eq k j then j ∷ js else j ∷ rest

unfoldable pub sorted_keys : List Text → List Text
unfolding insert_key
sorted_keys [] = []
sorted_keys (k ∷ ks) = insert_key k (sorted_keys ks)
