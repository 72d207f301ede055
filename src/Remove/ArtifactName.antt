-- ===== src/Remove/ArtifactName.antt =====
-- packageNameFromArtifact of internal/remove.go: the name in the file name of a built package.
pub mod Stem
use aurforge.Common.{
  ℕ, zero, suc, ltb, Text, codes, List, [], ◌∷◌, ◌++◌, ◌==◌, if◌then◌else◌, length, drop,
  has_suffix, trim_suffix, split, join,
}
use mathlib.Core.List.{reverse}

trim_slashes : Text → Text
trim_slashes [] = []
trim_slashes (c ∷ s) = let rest = trim_slashes s in if c == b'/' then rest else c ∷ s

last_part : List Text → Text
last_part [] = []
last_part (p ∷ []) = p
last_part (p ∷ q ∷ ps) = last_part (q ∷ ps)

base_of_trimmed : Text → Text
unfolding last_part split
base_of_trimmed [] = codes "/"
base_of_trimmed (c ∷ s) = last_part (split b'/' (c ∷ s))

-- filepath.Base
unfoldable pub path_base : Text → Text
unfolding trim_slashes base_of_trimmed
path_base [] = codes "."
path_base (c ∷ s) = base_of_trimmed (reverse (trim_slashes (reverse (c ∷ s))))

abbrev pub package_suffixes : List Text
package_suffixes =
    codes ".pkg.tar.zst"
    ∷ codes ".pkg.tar.xz"
    ∷ codes ".pkg.tar.gz"
    ∷ codes ".pkg.tar.bz2"
    ∷ codes ".pkg.tar"
    ∷ []

-- The loop over the suffixes, which stops at the first one that fits.
unfoldable pub strip_suffix : List Text → Text → Text
unfolding has_suffix trim_suffix
strip_suffix [] s = s
strip_suffix (p ∷ ps) s = if has_suffix p s then trim_suffix p s else strip_suffix ps s

-- parts[:len(parts)-3]
unfoldable pub drop_last : ℕ → List Text → List Text
drop_last n parts = reverse (drop n (reverse parts))

unfoldable pub name_of_parts : List Text → Text
unfolding drop_last join
name_of_parts parts = if ltb (length parts) 4 then [] else join b'-' (drop_last 3 parts)

unfoldable pub package_name_from_artifact : Text → Text
unfolding path_base strip_suffix name_of_parts split
package_name_from_artifact filename =
    name_of_parts (split b'-' (strip_suffix package_suffixes (path_base filename)))
