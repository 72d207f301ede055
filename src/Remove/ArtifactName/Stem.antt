-- ===== src/Remove/ArtifactName/Stem.antt =====
-- The name is read back from the file names that makepkg gives to packages.
use aurforge.Common.{
  ℕ, ltb, ◌≤◌, Text, List, [], ◌∷◌, ◌++◌, if◌then◌else◌, length, drop, split, join, Lacks,
  Lacks-append, split-append, split-Lacks, join-split, ◌≡◌, ◌≢◌, refl, sym, ap, ◌∙◌, subst, arith,
  Memᴰ, All-mem, false, split-ne-nil,
}
use mathlib.Core.List.{reverse, reverse-append, reverse-reverse, reverse-cons}
use aurforge.Remove.ArtifactName.{
  trim_slashes, base_of_trimmed, last_part, path_base, package_suffixes, strip_suffix, drop_last,
  name_of_parts, package_name_from_artifact,
}

trim_slashes-Lacks : (s : Text) → Lacks b'/' s → trim_slashes s ≡ s
unfolding trim_slashes
trim_slashes-Lacks [] h = refl
trim_slashes-Lacks (c ∷ s) (n, h) = ground arith

Lacks-reverse : (b : ℕ) (s : Text) → Lacks b s → Lacks b (reverse s)
Lacks-reverse b [] h = tt
Lacks-reverse b (c ∷ s) (n, h) =
    subst (Lacks b) (sym (reverse-cons c s))
      (Lacks-append b (reverse s) (c ∷ []) (Lacks-reverse b s h) (n, tt))

path_base-Lacks : (c : ℕ) (s : Text) → Lacks b'/' (c ∷ s) → path_base (c ∷ s) ≡ c ∷ s
unfolding path_base
path_base-Lacks c s h =
    let t : reverse (trim_slashes (reverse (c ∷ s))) ≡ c ∷ s =
      ap reverse (trim_slashes-Lacks (reverse (c ∷ s)) (Lacks-reverse b'/' (c ∷ s) h))
      ∙ reverse-reverse (c ∷ s) in
    ap base_of_trimmed t ∙ ap last_part (split-Lacks b'/' (c ∷ s) h)

strip_suffix-append :
    (stem suffix : Text)
    → Memᴰ suffix package_suffixes
    → strip_suffix package_suffixes (stem ++ suffix) ≡ stem
unfolding strip_suffix
strip_suffix-append stem suffix (Memᴰ.head e) = rw (e, reverse-append) (reverse-reverse stem)
strip_suffix-append stem suffix (Memᴰ.tail (Memᴰ.head e)) =
    rw (e, reverse-append) (reverse-reverse stem)
strip_suffix-append stem suffix (Memᴰ.tail (Memᴰ.tail (Memᴰ.head e))) =
    rw (e, reverse-append) (reverse-reverse stem)
strip_suffix-append stem suffix (Memᴰ.tail (Memᴰ.tail (Memᴰ.tail (Memᴰ.head e)))) =
    rw (e, reverse-append) (reverse-reverse stem)
strip_suffix-append stem suffix (Memᴰ.tail (Memᴰ.tail (Memᴰ.tail (Memᴰ.tail (Memᴰ.head e))))) =
    rw (e, reverse-append) (reverse-reverse stem)
strip_suffix-append stem suffix (Memᴰ.tail (Memᴰ.tail (Memᴰ.tail (Memᴰ.tail (Memᴰ.tail m))))) =
    elim m [ ]

length-append_three : (ps : List Text) (a b c : Text) → 3 ≤ length (ps ++ a ∷ b ∷ c ∷ [])
length-append_three [] a b c = omega arith
length-append_three (p ∷ ps) a b c = omega (arith, length-append_three ps a b c)

name_of_parts-append :
    (parts : List Text) (a b c : Text)
    → parts ≢ []
    → name_of_parts (parts ++ a ∷ b ∷ c ∷ []) ≡ join b'-' parts
unfolding name_of_parts
name_of_parts-append [] a b c h = absurd (h refl)
name_of_parts-append (p ∷ ps) a b c h =
    let long : ltb (length ((p ∷ ps) ++ a ∷ b ∷ c ∷ [])) 4 ≡ false =
      ground (arith, length-append_three ps a b c) in
    let cut_off : drop_last 3 ((p ∷ ps) ++ a ∷ b ∷ c ∷ []) ≡ p ∷ ps =
      ap (λ l. reverse (drop 3 l)) (reverse-append (p ∷ ps) (a ∷ b ∷ c ∷ []))
      ∙ reverse-reverse (p ∷ ps) in
    ap (λ x. if x then [] else join b'-' (drop_last 3 ((p ∷ ps) ++ a ∷ b ∷ c ∷ []))) long
    ∙ ap (join b'-') cut_off

-- `name-pkgver-pkgrel-arch`
abbrev pub stem : Text → Text → Text → Text → Text
stem name ver rel arch = name ++ b'-' ∷ (ver ++ b'-' ∷ (rel ++ b'-' ∷ arch))

split-stem :
    (name ver rel arch : Text)
    → Lacks b'-' ver
    → Lacks b'-' rel
    → Lacks b'-' arch
    → split b'-' (stem name ver rel arch) ≡ split b'-' name ++ ver ∷ rel ∷ arch ∷ []
split-stem name ver rel arch v r a = rw (
  split-append b'-' name,
  split-append b'-' ver,
  split-append b'-' rel,
  split-Lacks b'-' ver v,
  split-Lacks b'-' rel r,
  split-Lacks b'-' arch a,
)

suffix-Lacks : (suffix : Text) → Memᴰ suffix package_suffixes → Lacks b'/' suffix
suffix-Lacks suffix m = All-mem (Lacks b'/') package_suffixes (omega arith) m

-- The name of a package is read back from the file name that makepkg makes of it, dashes in the
-- name included, if version, release and architecture hold no dash and no part holds a slash.
pub package_name_from_artifact-stem :
    (c : ℕ) (name ver rel arch suffix : Text)
    → Memᴰ suffix package_suffixes
    → Lacks b'-' ver
    → Lacks b'-' rel
    → Lacks b'-' arch
    → Lacks b'/' (stem (c ∷ name) ver rel arch)
    → package_name_from_artifact (stem (c ∷ name) ver rel arch ++ suffix) ≡ c ∷ name
unfolding package_name_from_artifact
package_name_from_artifact-stem c name ver rel arch suffix m v r a no_slash =
    let full = stem (c ∷ name) ver rel arch in
    let base =
      path_base-Lacks c (stem name ver rel arch ++ suffix)
        (Lacks-append b'/' full suffix no_slash (suffix-Lacks suffix m)) in
    ap (λ s. name_of_parts (split b'-' (strip_suffix package_suffixes s))) base
    ∙ ap (λ s. name_of_parts (split b'-' s)) (strip_suffix-append full suffix m)
    ∙ ap name_of_parts (split-stem (c ∷ name) ver rel arch v r a)
    ∙ name_of_parts-append (split b'-' (c ∷ name)) ver rel arch (split-ne-nil b'-' (c ∷ name))
    ∙ join-split b'-' (c ∷ name)
