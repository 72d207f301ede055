-- ===== src/Tree.antt =====
-- HashTree, CopyTree and isBuildArtifact of internal/package.go, over the tree of files that
-- filepath.WalkDir goes through: a directory lists its entries in the order of their names.
pub mod Copied
use aurforge.Common.{
  ℕ, Text, codes, text_eq, contains, Bool, true, false, ◌&&◌, ◌||◌, List, [], ◌∷◌, ◌++◌, Option,
  none, some, if◌then◌else◌, and_then,
}
use aurforge.Remove.Keys.{text_lt}

-- What reading a file returns (`none` is an error). Opening a symbolic link opens what it leads to.
mutual
  pub data Tree : Type 0 where
    file : Option Text → Tree
    link : Option Text → Tree
    dir : Entries → Tree

  pub data Entries : Type 0 where
    end : Entries
    entry : Text → Tree → Entries → Entries

unfoldable pub is_build_artifact : Text → Bool
is_build_artifact name = contains (codes ".pkg.tar.") name

abbrev pub is_git : Text → Bool
is_git name = text_eq name (codes ".git")

-- The path of an entry relative to the root; that of the root is empty here.
abbrev pub below : Text → Text → Text
below [] name = name
below (c ∷ prefix) name = (c ∷ prefix) ++ b'/' ∷ name

-- A file that HashTree looks at: its path relative to the root, and what reading it returns.
abbrev pub Found : Type 0
Found = Text × Option Text

abbrev pub found_file : Text → Text → Option Text → List Found → List Found
found_file name path content rest = if is_build_artifact name then rest else (path, content) ∷ rest

-- The walk that fills `paths`: `name` and `path` are those of the entry.
unfoldable mutual
  pub walk : Text → Text → Tree → List Found → List Found
  walk name path (file content) rest = found_file name path content rest
  walk name path (link content) rest = found_file name path content rest
  walk name path (dir es) rest =
      let inside = walk_entries path es rest in if is_git name then rest else inside

  pub walk_entries : Text → Entries → List Found → List Found
  walk_entries path end rest = rest
  walk_entries path (entry name child es) rest =
      walk name (below path name) child (walk_entries path es rest)

-- sort.Strings(paths): the paths share the root in front.
unfoldable pub insert_found : Found → List Found → List Found
insert_found f [] = f ∷ []
insert_found f (g ∷ gs) =
    let rest = insert_found f gs in if text_lt g.0 f.0 then g ∷ rest else f ∷ g ∷ gs

unfoldable pub sort_found : List Found → List Found
unfolding insert_found
sort_found [] = []
sort_found (f ∷ fs) = insert_found f (sort_found fs)

-- What is written to the hash.
abbrev pub and_written : Text → Option Text → Option Text → Option Text
and_written path none rest = none
and_written path (some content) none = none
and_written path (some content) (some rest) = some (path ++ 0 ∷ content ++ rest)

unfoldable pub stream : List Found → Option Text
stream [] = some []
stream ((path, content) ∷ rest) = and_written path content (stream rest)

-- The bytes that the root's files give to the hash, and HashTree with the hash as an argument. The
-- root's own name is not that of a git directory.
unfoldable pub hash_input : Entries → Option Text
unfolding walk sort_found stream
hash_input es = stream (sort_found (walk_entries [] es []))

unfoldable pub hash_tree : (Text → Text) → Entries → Option Text
unfolding hash_input
hash_tree digest es = and_then (hash_input es) (λ bytes. some (digest bytes))

-- What CopyTree leaves behind for one entry: nothing, an error, or a tree.
pub data Copy : Type 0 where
  left_out refused : Copy
  copied : Tree → Copy

pub data Copies : Type 0 where
  refused_all : Copies
  copied_all : Entries → Copies

abbrev pub copied_file : Text → Option Text → Copy
copied_file name none = if is_build_artifact name then left_out else refused
copied_file name (some content) =
    if is_build_artifact name then left_out else copied (file (some content))

abbrev pub copied_dir : Copies → Copy
copied_dir refused_all = refused
copied_dir (copied_all es) = copied (dir es)

abbrev pub and_copies : Text → Copy → Copies → Copies
and_copies name refused rest = refused_all
and_copies name left_out rest = rest
and_copies name (copied child) refused_all = refused_all
and_copies name (copied child) (copied_all es) = copied_all (entry name child es)

-- CopyTree into a new directory, `top` where the entries are the root's.
unfoldable mutual
  pub copy : Text → Tree → Copy
  copy name (file content) = copied_file name content
  copy name (link content) = if is_build_artifact name then left_out else refused
  copy name (dir es) = copied_dir (copy_entries false es)

  pub copy_entries : Bool → Entries → Copies
  copy_entries top end = copied_all end
  copy_entries top (entry name child es) =
      let rest = copy_entries top es in
      let kept = and_copies name (copy name child) rest in if top && is_git name then rest else kept

unfoldable pub copy_tree : Entries → Copies
unfolding copy
copy_tree es = copy_entries true es
