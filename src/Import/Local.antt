-- ===== src/Import/Local.antt =====
-- PreviewLocal and PromptConfirm of internal/import.go.
pub mod Confined
use aurforge.Common.{
  ℕ, Text, codes, text_eq, Bool, true, false, ◌||◌, ◌&&◌, List, [], ◌∷◌, ◌++◌, map, Option, none,
  some, if◌then◌else◌, and_then, has_prefix, trim_space, leb, ◌+◌,
}
use aurforge.Tree.{Entries, hash_tree}
use aurforge.Host.{abs_path}
use aurforge.Host.Paths.{is_abs, join_path}
use aurforge.Package.{PackageInfo}
use aurforge.Package.Srcinfo.{parse_package}
use aurforge.Import.{Preview, audit_package}

-- A directory of the local imports: whether there is a PKGBUILD, what reading .SRCINFO and
-- PKGBUILD returns, and its tree of files.
pub record Folder : Type 0 where
  pub has_pkgbuild : Bool
  pub srcinfo : Option Text
  pub pkgbuild : Option Text
  pub contents : Entries

-- What the program finds outside: the working directory (`none` is an error), the directory at
-- a path, the hash, and the matches of the regular expressions in a PKGBUILD.
pub record Workplace : Type 0 where
  pub working_directory : Option Text
  pub folder : Text → Folder
  pub sha256 : Text → Text
  pub assignments : Text → List (Text × List Text)

-- The path that is looked at, which must not leave the root of the local imports.
unfoldable pub below_root : Text → Text → Option Text
unfolding has_prefix
below_root clean_root clean_path =
    if text_eq clean_path clean_root || has_prefix (clean_root ++ codes "/") clean_path
    then some clean_path
    else none

abbrev pub under_root : Text → Text → Text
under_root clean_root path = if is_abs path then path else join_path clean_root path

unfoldable pub local_path : Option Text → Text → Text → Option Text
unfolding below_root abs_path
local_path working_directory root path = and_then (abs_path working_directory root) (λ clean_root.
    and_then (abs_path working_directory (under_root clean_root path)) (below_root clean_root))

module _ (place : Workplace) where
  unfoldable pub preview_folder : Text → Folder → Option Preview
  unfolding audit_package hash_tree
  preview_folder path f =
      and_then
        (parse_package place.assignments f.has_pkgbuild f.srcinfo f.pkgbuild (codes "local") path)
        (λ info. and_then (hash_tree place.sha256 f.contents) (λ digest.
          and_then (audit_package f.pkgbuild) (λ messages.
            some
              (record { info = info; digest = digest; path = path; audit_messages = messages }))))

  unfoldable pub preview_local : Text → Text → Option Preview
  unfolding preview_folder local_path
  preview_local root path =
      and_then (local_path place.working_directory root path)
        (λ clean_path. preview_folder clean_path (place.folder clean_path))

-- strings.ToLower, on letters of one byte.
abbrev pub lower : ℕ → ℕ
lower c = if leb b'A' c && leb c b'Z' then c + 32 else c

-- The answer of a line that was read; `none` is an error of reading.
unfoldable pub is_agreed : Text → Bool
unfolding trim_space text_eq
is_agreed line =
    let answer = map lower (trim_space line) in
    text_eq answer [] || text_eq answer (codes "y") || text_eq answer (codes "yes")

unfoldable pub prompt_confirm : Option Text → Bool → Option Bool
unfolding is_agreed
prompt_confirm line true = some true
prompt_confirm none false = none
prompt_confirm (some line) false = some (is_agreed line)
