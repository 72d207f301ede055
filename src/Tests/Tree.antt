-- ===== src/Tests/Tree.antt =====
-- A directory with a git directory, a package that was built in it, and a patch in a subdirectory.
use aurforge.Common.{codes, text_eq, contains, has_prefix, [], ◌∷◌, ◌++◌, some, ◌≡◌, refl}
use aurforge.Remove.Keys.{text_lt}
use aurforge.Tree.{
  file, link, dir, Entries, end, entry, copied_all, refused_all, copy_tree, hash_tree, hash_input,
  copy, walk, sort_found, insert_found, stream, is_build_artifact,
}
use aurforge.Tree.Copied.{HasNoGitFile, hash_tree-copy_tree}

abbrev patches : Entries
patches = entry (codes "fix") (file (some (codes "p"))) end

abbrev sources : Entries
sources = entry (codes ".git") (dir (entry (codes "HEAD") (file (some (codes "h"))) end)) (
    entry (codes "PKGBUILD") (file (some (codes "b"))) (
      entry (codes "a.pkg.tar.zst") (file (some (codes "z")))
        (entry (codes "d") (dir patches) end)))

abbrev snapshot : Entries
snapshot = entry (codes "PKGBUILD") (file (some (codes "b"))) (entry (codes "d") (dir patches) end)

copied_run : copy_tree sources ≡ copied_all snapshot
unfolding copy_tree copy is_build_artifact contains has_prefix text_eq
copied_run = refl

linked_run : copy_tree (entry (codes "x") (link (some [])) end) ≡ refused_all
unfolding copy_tree copy is_build_artifact contains has_prefix text_eq
linked_run = refl

hashed_run :
    hash_input sources
    ≡ some (codes "PKGBUILD" ++ 0 ∷ codes "b" ++ (codes "d/fix" ++ 0 ∷ codes "p" ++ []))
unfolding hash_input walk is_build_artifact contains has_prefix text_eq sort_found insert_found
    stream text_lt
hashed_run = refl

hash_tree-copy_tree_example :
    hash_tree (λ bytes. bytes) snapshot ≡ hash_tree (λ bytes. bytes) sources
unfolding text_eq
hash_tree-copy_tree_example =
    hash_tree-copy_tree (λ bytes. bytes) sources snapshot no_git_file copied_run
  where
    no_git_file : HasNoGitFile sources
    no_git_file = (refl, (refl, (refl, (refl, tt))))
