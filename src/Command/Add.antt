-- ===== src/Command/Add.antt =====
-- add of cmd/aurforge/main.go: a local package, or a package that the AUR has with those that it
-- needs, enters the database.
pub mod Chosen
pub mod Outcome
pub mod Steps
pub mod Imported
use aurforge.Common.{
  ℤ, pos, negsuc, atoi, decimal, ℕ, zero, suc, ◌-◌, Text, codes, text_eq, Bool, true, false, ◌&&◌,
  List, [], ◌∷◌, ◌++◌, length, Option, none, some, if◌then◌else◌, trim_space, leb, ltb, join,
}
use aurforge.Store.{Instant}
use aurforge.Session.{
  import_failed, fatal, panicked, Env, Session, M, ◌>>=◌, ◌>>◌, pure, raise, moment,
}
use aurforge.Config.{Config, source_root}
use aurforge.Package.{PackageInfo}
use aurforge.Import.{World, Preview, AurNode, Visit, spent, failed, done, Walk, resolve_aur_graph}
use aurforge.Import.Local.{Workplace, preview_local}
use aurforge.Accept.{accept_aur, accept_local}
use aurforge.Command.Flags.{AddArgs, Parsed, parsed, refused, no_args, parse_add}
use aurforge.Command.Output.{print_line, print_lines, show_preview, ask}

-- AURResult
pub record AurResult : Type 0 where
  pub name : Text
  pub version : Text
  pub description : Text

-- What a command finds outside: the lines that the operator types, the local directories, what
-- SearchAUR returns (`none` is an error), the AUR and its clones, the fuel of the search, and what
-- git says of a kept directory.
pub record Outside : Type 0 where
  pub line : ℕ → Option Text
  pub place : Workplace
  pub search : Text → Option (List AurResult)
  pub world : World
  pub fuel : ℕ
  pub committed_at : Text → Option Instant

unfoldable pub result_lines : ℕ → List AurResult → List Text
unfolding decimal
result_lines index [] = []
result_lines index (r ∷ rs) =
    (decimal (suc index)
      ++ codes ") "
      ++ r.name
      ++ codes " "
      ++ r.version
      ++ codes " - "
      ++ r.description)
    ∷ result_lines (suc index) rs

-- results[i]
abbrev pub element : ℕ → List AurResult → Option AurResult
element i [] = none
element zero (r ∷ rs) = some r
element (suc i) (r ∷ rs) = element i rs

-- The texts of errors leave out what they say of the value.
abbrev pub out_of_range : M AurResult
out_of_range = raise (fatal (codes "selection is out of range"))

abbrev pub or_panic {ℓ} : {A : Type ℓ} → Option A → M A
or_panic none = raise panicked
or_panic (some a) = pure a

abbrev pub is_selection : ℤ → List AurResult → Bool
is_selection (negsuc n) results = false
is_selection (pos n) results = leb 1 n && leb n (length results)

abbrev pub index_of : ℤ → ℕ
index_of (negsuc n) = 0
index_of (pos n) = n - 1

-- `if selectIndex < 1 || selectIndex > len(results)`, and the element behind the check.
unfoldable pub select_result : ℤ → List AurResult → M AurResult
select_result n results = elim (is_selection n results) [
  | false ↦ out_of_range
  | true ↦ or_panic (element (index_of n) results)
]

-- A number that is read; `none` is an error.
abbrev pub number_of : Option Text → Option ℤ
number_of none = none
number_of (some line) = atoi (trim_space line)

abbrev pub or_import_failed {ℓ} : {A : Type ℓ} → Option A → M A
or_import_failed none = raise import_failed
or_import_failed (some a) = pure a

-- The nodes of a graph that was found; the fuel is an argument of the model.
abbrev pub graph_nodes : Visit → M (List AurNode)
graph_nodes spent = raise import_failed
graph_nodes failed = raise import_failed
graph_nodes (done w) = pure w.nodes

-- graph[0]
abbrev pub first_node : List AurNode → M AurNode
first_node [] = raise panicked
first_node (node ∷ nodes) = pure node

abbrev pub join_words : List Text → Text
join_words = join b' '

module _ (env : Env) (cfg : Config) (outside : Outside) where
  unfoldable pub import_local : Preview → Bool → M (Unit {0})
  import_local preview false = pure tt
  import_local preview true = do
    id ← accept_local env (source_root cfg) preview
    print_line env (
        codes "Imported "
        ++ preview.info.name
        ++ codes " as package version "
        ++ decimal id
        ++ codes "; build queued immediately.")

  unfoldable pub add_local : Bool → Text → M (Unit {0})
  unfolding import_local
  add_local agreed path = do
    preview ← or_import_failed (preview_local outside.place cfg.local_import_root path)
    show_preview env preview
    answer ← ask env outside.line (codes "Import this local package?") agreed
    import_local preview answer

  -- The number of the operator, where none is given or it is below zero.
  unfoldable pub choose : ℤ → List AurResult → M ℤ
  unfolding result_lines atoi trim_space
  choose (pos n) results = pure (pos n)
  choose (negsuc n) results = do
    print_lines env (result_lines 0 results)
    print_line env (codes "Select package number: ")
    now_at ← moment
    or_import_failed (number_of (outside.line now_at))

  -- The loop over the nodes; its value is the id of the last one with the name of the root.
  unfoldable pub accept_nodes : Text → ℕ → List AurNode → M ℕ
  accept_nodes root root_id [] = pure root_id
  accept_nodes root root_id (node ∷ nodes) = do
    id ←
        accept_aur env outside.committed_at (source_root cfg) cfg.update_delay node.preview
          node.revision
    accept_nodes root (if text_eq node.preview.info.name root then id else root_id) nodes

  unfoldable pub import_graph : AurNode → List AurNode → Bool → M (Unit {0})
  unfolding accept_nodes
  import_graph root nodes false = pure tt
  import_graph root nodes true = do
    root_id ← accept_nodes root.preview.info.name 0 nodes
    print_line env (
        codes "Imported "
        ++ root.preview.info.name
        ++ codes " and "
        ++ decimal (length nodes - 1)
        ++ codes " dependency package(s); root package version "
        ++ decimal root_id
        ++ codes
            " builds once its AUR commit is older than the update delay (and is still the latest revision).")

  unfoldable pub show_nodes : List AurNode → M (Unit {0})
  show_nodes [] = pure tt
  show_nodes (node ∷ nodes) = do show_preview env node.preview; show_nodes nodes

  -- What follows the choice of a result.
  unfoldable pub add_selected : Bool → AurResult → M (Unit {0})
  unfolding import_graph show_nodes
  add_selected agreed selected = do
    nodes ← graph_nodes (resolve_aur_graph outside.world outside.fuel selected.name)
    root ← first_node nodes
    show_nodes nodes
    print_line env
        (codes "AUR dependency graph contains " ++ decimal (length nodes) ++ codes " package(s).")
    answer ← ask env outside.line (codes "Import this AUR package?") agreed
    import_graph root nodes answer

  unfoldable pub add_results : AddArgs → Text → List AurResult → M (Unit {0})
  unfolding add_selected choose select_result
  add_results a query [] = raise (fatal (codes "no AUR packages matched " ++ query))
  add_results a query (r ∷ rs) = do
    index ← choose a.select_index (r ∷ rs)
    selected ← select_result index (r ∷ rs)
    add_selected a.yes selected

  unfoldable pub add_query : AddArgs → Text → M (Unit {0})
  unfolding add_results
  add_query a [] = raise (fatal (codes "AUR query is required"))
  add_query a (c ∷ query) = do
    results ← or_import_failed (outside.search (c ∷ query))
    add_results a (c ∷ query) results

  unfoldable pub add_from : AddArgs → Text → M (Unit {0})
  unfolding add_local add_query
  add_from a [] = add_query a (join_words a.query_parts)
  add_from a (c ∷ path) = add_local a.yes (c ∷ path)

  abbrev pub add_parsed : Parsed AddArgs → M (Unit {0})
  add_parsed (refused e) = raise e
  add_parsed (parsed a) = add_from a a.local_dir

  unfoldable pub add : List Text → M (Unit {0})
  unfolding add_from parse_add
  add [] = raise (fatal (codes "add requires an AUR query or --local path"))
  add (arg ∷ args) = add_parsed (parse_add (arg ∷ args) no_args)
