-- ===== src/Command/Add/Outcome.antt =====
-- add of cmd/aurforge/main.go: the ways in which it can leave the tables.
use aurforge.Common.{
  ℕ, Text, codes, true, false, List, [], ◌∷◌, ◌++◌, some, ◌≡◌, sym, subst, pos, negsuc, ◌≤◌, ◌-◌,
  atoi, trim_space, join,
}
use aurforge.Store.{Tables, Instant}
use aurforge.Config.{Config, source_root}
use aurforge.Queue.{eligible_at_from_commit}
use aurforge.Import.{Preview, AurNode, done, Walk, resolve_aur_graph}
use aurforge.Import.Local.{preview_local}
use aurforge.Accept.{target_path}
use aurforge.Accept.Imports.{Enters}
use aurforge.Accept.Chain.{
  KeepsHistory, KeepsHistory-refl, KeepsHistory-trans, Registered-KeepsHistory,
}
use aurforge.Command.Output.Quiet.{Answer}
use aurforge.Command.Flags.{AddArgs, Parsed, parsed}
use aurforge.Command.Add.{AurResult, Outside, element}

pub moved :
    (R : List AurNode → Tables → Tables → Type 0) {nodes others : List AurNode}
    {base before after : Tables}
    → nodes ≡ others
    → base ≡ before
    → R nodes base after
    → R others before after
moved R {nodes} {others} {base} {before} {after} e f r =
    subst (λ l. R l before after) e (subst (λ b. R nodes b after) f r)

module _ (cfg : Config) (outside : Outside) where
  -- The nodes are imported one after the other, each at the time that the delay allows.
  pub data Each : List AurNode → Tables → Tables → Type 0 where
    all_in : {t : Tables} → Each [] t t
    and_node :
        {node : AurNode} {nodes : List AurNode} {before between after : Tables}
        (commit_time time : Instant) {id : ℕ}
        → outside.committed_at
            (target_path (source_root cfg) (codes "aur") node.preview.info.name node.revision)
          ≡ some commit_time
        → Enters before node.preview.info node.revision node.preview.digest
            (eligible_at_from_commit commit_time cfg.update_delay time)
            id
            between
        → Each nodes between after
        → Each (node ∷ nodes) before after

  -- The first nodes are imported, and no other.
  pub record Some (nodes : List AurNode) (before after : Tables) : Type 0 where
    pub imported : List AurNode
    pub rest : List AurNode
    pub split_at : nodes ≡ imported ++ rest
    pub each : Each imported before after

  Each-KeepsHistory :
      {nodes : List AurNode} {before after : Tables}
      → Each nodes before after
      → KeepsHistory before after
  Each-KeepsHistory {before = before} all_in = KeepsHistory-refl before
  Each-KeepsHistory (and_node commit_time time c e es) =
      KeepsHistory-trans (Registered-KeepsHistory e.registered) (Each-KeepsHistory es)

  Same-KeepsHistory : (before after : Tables) → after ≡ before → KeepsHistory before after
  Same-KeepsHistory before after e = subst (KeepsHistory before) (sym e) (KeepsHistory-refl before)

  module _ (a : AddArgs) where
    -- The number of the result that is wanted: the one of `--select`, or, where that is below zero,
    -- the one that a line of the operator says.
    pub data IsNumber : ℕ → Type 0 where
      of_flag : {n : ℕ} → a.select_index ≡ pos n → IsNumber n
      of_line :
          {k n moment : ℕ} {line : Text}
          → a.select_index ≡ negsuc k
          → outside.line moment ≡ some line
          → atoi (trim_space line) ≡ some (pos n)
          → IsNumber n

    -- The graph of the result with that number, counted from one, of the search for the words of the
    -- command, which names no directory.
    pub record Wanted (w : Walk) : Type 0 where
      pub no_directory : a.local_dir ≡ []
      pub results : List AurResult
      pub searched : outside.search (join b' ' a.query_parts) ≡ some results
      pub number : ℕ
      pub is_number : IsNumber number
      pub counted : 1 ≤ number
      pub selected : AurResult
      pub at_number : element (number - 1) results ≡ some selected
      pub resolved : resolve_aur_graph outside.world outside.fuel selected.name ≡ done w

    -- How a command that ends without an error leaves the tables: as they were, where the operator
    -- has declined, or, where the operator or `--yes` has agreed, with the package of the directory
    -- that is named, or with every package of the graph that is wanted.
    pub data Added (before after : Tables) : Type 0 where
      declined : Answer outside.line a.yes false → after ≡ before → Added before after
      local_package :
          {c : ℕ} {path : Text} {preview : Preview} {time : Instant} {id : ℕ}
          → a.local_dir ≡ c ∷ path
          → Answer outside.line a.yes true
          → preview_local outside.place cfg.local_import_root (c ∷ path) ≡ some preview
          → Enters before preview.info preview.digest preview.digest time id after
          → Added before after
      graph :
          {w : Walk}
          → Wanted w
          → Answer outside.line a.yes true
          → Each w.nodes before after
          → Added before after

  -- How one that ends with an error does: as they were, or, where its arguments were read and the
  -- operator or `--yes` has agreed, with the first packages of the graph that is wanted.
  pub data Broken (read : Parsed AddArgs) (before after : Tables) : Type 0 where
    untouched : after ≡ before → Broken read before after
    first_of_graph :
        (a : AddArgs) {w : Walk}
        → read ≡ parsed a
        → Wanted a w
        → Answer outside.line a.yes true
        → Some w.nodes before after
        → Broken read before after

  pub Added-KeepsHistory :
      (a : AddArgs) {before after : Tables} → Added a before after → KeepsHistory before after
  Added-KeepsHistory a (declined n e) = Same-KeepsHistory _ _ e
  Added-KeepsHistory a (local_package d y p e) = Registered-KeepsHistory e.registered
  Added-KeepsHistory a (graph w y es) = Each-KeepsHistory es

  pub Broken-KeepsHistory :
      (read : Parsed AddArgs) {before after : Tables}
      → Broken read before after
      → KeepsHistory before after
  Broken-KeepsHistory read (untouched e) = Same-KeepsHistory _ _ e
  Broken-KeepsHistory read (first_of_graph a r w y part) = Each-KeepsHistory part.each
