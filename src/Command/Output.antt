-- ===== src/Command/Output.antt =====
-- showPreview of cmd/aurforge/main.go, and what the commands print and read.
pub mod Quiet
use aurforge.Common.{
  ℕ, Text, codes, Bool, true, false, List, [], ◌∷◌, ◌++◌, map, Option, none, some, join,
}
use aurforge.Session.{import_failed, Env, M, ◌>>=◌, ◌>>◌, pure, raise, moment, perform, print}
use aurforge.Package.{PackageInfo, Requirement}
use aurforge.Import.{Preview}
use aurforge.Import.Local.{prompt_confirm}

-- strings.Join(texts, ", ")
unfoldable pub listed : List Text → Text
listed [] = []
listed (t ∷ []) = t
listed (t ∷ u ∷ ts) = t ++ codes ", " ++ listed (u ∷ ts)

abbrev pub dependency_lines : List Requirement → List Text
dependency_lines [] = []
dependency_lines (d ∷ ds) =
    (codes "Declared dependencies: " ++ listed (map (λ r. r.name) (d ∷ ds))) ∷ []

abbrev pub warning_line : Text → Text
warning_line warning = codes "Warning: " ++ warning

abbrev pub audit_lines : List Text → List Text
audit_lines [] = codes "Audit: no static policy warnings" ∷ []
audit_lines (w ∷ ws) = map warning_line (w ∷ ws)

-- showPreview, behind the empty line in front.
unfoldable pub preview_lines : Preview → List Text
unfolding listed
preview_lines preview =
    let pkg = preview.info in
    (codes "Package: " ++ pkg.name ++ codes " " ++ pkg.version ++ codes "-" ++ pkg.release)
      ∷ (codes "Source: " ++ pkg.source_kind)
      ∷ (codes "Snapshot: " ++ preview.digest)
      ∷ (codes "Split packages: " ++ listed pkg.split_packages)
      ∷ dependency_lines pkg.dependencies
    ++ audit_lines (pkg.warnings ++ preview.audit_messages)

module _ (env : Env) where
  -- The error of printing is dropped.
  unfoldable pub print_line : Text → M (Unit {0})
  print_line line = do perform env (print line); pure tt

  unfoldable pub print_lines : List Text → M (Unit {0})
  unfolding print_line
  print_lines [] = pure tt
  print_lines (line ∷ lines) = do print_line line; print_lines lines

  unfoldable pub show_preview : Preview → M (Unit {0})
  unfolding print_lines preview_lines
  show_preview preview = print_lines ([] ∷ preview_lines preview)

  abbrev pub answered : Option Bool → M Bool
  answered none = raise import_failed
  answered (some answer) = pure answer

  abbrev pub print_unless : Bool → Text → M (Unit {0})
  print_unless true line = pure tt
  print_unless false line = print_line line

  -- PromptConfirm; `line` is what the reader returns at a moment.
  unfoldable pub ask : (ℕ → Option Text) → Text → Bool → M Bool
  unfolding print_line prompt_confirm
  ask line prompt agreed = do
    print_unless agreed (prompt ++ codes " [Y/n] ")
    n ← moment
    answered (prompt_confirm (line n) agreed)
