-- ===== src/Command/Remove.antt =====
-- remove and status of cmd/aurforge/main.go.
pub mod Removed
use aurforge.Common.{ℕ, Text, codes, Bool, true, false, List, [], ◌∷◌, ◌++◌, Option, none, some}
use aurforge.Session.{fatal, Env, Session, M, ◌>>=◌, ◌>>◌, pure, raise}
use aurforge.Listing.{list_packages}
use aurforge.Remove.{Removal, remove_package}
use aurforge.Command.Flags.{parse_remove}
use aurforge.Command.Output.{listed, print_line, print_lines, ask}

abbrev pub in_repo : List Text → Text
in_repo [] = []
in_repo (p ∷ ps) = codes " (" ++ listed (p ∷ ps) ++ codes ")"

unfoldable pub removed_line : Removal → Text
unfolding listed
removed_line r =
    codes "Removed "
    ++ r.source_kind
    ++ codes " package "
    ++ r.name
    ++ in_repo r.repo_packages
    ++ codes "."

-- The name stands between quotes; what %q escapes in it is left as it is.
abbrev pub question : Text → Text
question name =
    codes "Remove managed package "
    ++ 34 ∷ name
    ++ 34 ∷ codes " (repo packages, jobs, and sources)?"

module _ (env : Env) (line : ℕ → Option Text) where
  pub remove_if : Text → Bool → M (Unit {0})
  remove_if name false = pure tt
  remove_if name true = do removed ← remove_package env name; print_line env (removed_line removed)

  pub remove_named : Text → Bool → M (Unit {0})
  unfolding remove_if
  remove_named name agreed = do answer ← ask env line (question name) agreed; remove_if name answer

  pub remove_one : Bool × List Text → M (Unit {0})
  unfolding remove_named
  remove_one (agreed, name ∷ []) = remove_named name agreed
  remove_one (agreed, _) = raise (fatal (codes "remove requires exactly one package name"))

  unfoldable pub remove : List Text → M (Unit {0})
  unfolding remove_one parse_remove
  remove [] = raise (fatal (codes "remove requires a package name"))
  remove (arg ∷ args) = remove_one (parse_remove (arg ∷ args) false [])

-- The order of the names is the argument that ListPackages has.
unfoldable pub status : Env → (Text → Text → Bool) → M (Unit {0})
unfolding list_packages
status env before = do lines ← list_packages env before; print_lines env lines
