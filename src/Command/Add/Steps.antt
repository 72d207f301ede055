-- ===== src/Command/Add/Steps.antt =====
-- add of cmd/aurforge/main.go: what it does once it knows what to import.
use aurforge.Common.{
  ℕ, Text, codes, Bool, true, false, List, [], ◌∷◌, Option, none, some, ◌≡◌, refl, sym, ap, subst,
}
use aurforge.Store.{Tables, Instant}
use aurforge.Session.{import_failed, panicked, Env, Session, M}
use aurforge.Session.Ensures.{
  Ensures, Ensures-bind, Ensures-pure, Ensures-raise, Ensures-weaken-failure,
}
use aurforge.Config.{Config, source_root}
use aurforge.Queue.{eligible_at_from_commit}
use aurforge.Import.{Preview, AurNode, Visit, spent, failed, done, Walk, resolve_aur_graph}
use aurforge.Import.Local.{preview_local}
use aurforge.Accept.{target_path}
use aurforge.Accept.Imports.{Enters, accept_aur-Enters, accept_local-Enters}
use aurforge.Command.Output.Quiet.{
  Same, print_line-Same, print_line_lem, show_preview-Same, Answer, ask_lem,
}
use aurforge.Command.Flags.{AddArgs, parsed}
use aurforge.Command.Add.{
  AurResult, Outside, or_import_failed, graph_nodes, first_node, import_local, add_local,
  accept_nodes, import_graph, show_nodes, add_selected,
}
use aurforge.Command.Add.Outcome.{
  moved, Each, all_in, and_node, Some, Wanted, Added, declined, local_package, graph, Broken,
  untouched, first_of_graph,
}

module _ (env : Env) (cfg : Config) (outside : Outside) where
  accept_nodes_lem :
      (root : Text) (nodes : List AurNode) (root_id : ℕ) (s : Session)
      → Ensures
          (accept_nodes env cfg outside root root_id nodes)
          s
          (λ _ t. Each cfg outside nodes s.committed t.committed)
          (λ t. Some cfg outside nodes s.committed t.committed)
  unfolding accept_nodes
  accept_nodes_lem root [] root_id s = Ensures-pure root_id s all_in
  accept_nodes_lem root (node ∷ nodes) root_id s =
      let target =
        target_path (source_root cfg) (codes "aur") node.preview.info.name node.revision in
      let First = λ (id : ℕ) (t : Session).
        (commit_time time : Instant) × (outside.committed_at target ≡ some commit_time)
        × Enters s.committed node.preview.info node.revision node.preview.digest
            (eligible_at_from_commit commit_time cfg.update_delay time) id t.committed in
      Ensures-bind _ _ s First (λ _ t. Each cfg outside (node ∷ nodes) s.committed t.committed)
        (Ensures-weaken-failure _ s
          (accept_aur-Enters env outside.committed_at (source_root cfg) cfg.update_delay
            node.preview node.revision s.committed s refl)
          (λ id e. e)
          (λ same. record {
            imported = [];
            rest = node ∷ nodes;
            split_at = refl;
            each = subst (Each cfg outside [] s.committed) (sym same) all_in;
          }))
        λ id t (commit_time, time, f, e).
          Ensures-weaken-failure _ t (accept_nodes_lem root nodes _ t)
            (λ _ es. and_node commit_time time f e es)
            (λ part. record {
              imported = node ∷ part.imported;
              rest = part.rest;
              split_at = ap (λ l. node ∷ l) part.split_at;
              each = and_node commit_time time f e part.each;
            })

module _ (env : Env) (cfg : Config) (outside : Outside) (a : AddArgs) where
  abbrev pub Kept : Tables → Session → Type 0
  Kept before t = Broken cfg outside (parsed a) before t.committed

  abbrev pub Goal : Tables → Unit {0} → Session → Type 0
  Goal before _ t = Added cfg outside a before t.committed

  -- What does not change the tables fits in front of what may.
  pub silent :
      {A : Type 0} {m : M A} {s : Session} {Q : A → Session → Type 0} (before : Tables)
      → Ensures m s Q (Same env before)
      → Ensures m s Q (Kept before)
  silent {m = m} {s = s} before h = Ensures-weaken-failure m s h (λ a q. q) (λ e. untouched e)

  pub or_import_failed_lem :
      {A : Type 0} (found : Option A) (before : Tables) (s : Session)
      → Same env before s
      → Ensures
          (or_import_failed found)
          s
          (λ x t. (found ≡ some x) × Same env before t)
          (Kept before)
  or_import_failed_lem none before s h = Ensures-raise import_failed s (untouched h)
  or_import_failed_lem (some x) before s h = Ensures-pure x s (refl, h)

  import_local_lem :
      {c : ℕ} {path : Text} (preview : Preview) (answer : Bool) (before : Tables) (s : Session)
      → a.local_dir ≡ c ∷ path
      → preview_local outside.place cfg.local_import_root (c ∷ path) ≡ some preview
      → Answer outside.line a.yes answer
      → Same env before s
      → Ensures (import_local env cfg outside preview answer) s (Goal before) (Kept before)
  unfolding import_local
  import_local_lem preview false before s d p y h = Ensures-pure tt s (declined y h)
  import_local_lem preview true before s d p y h =
      Ensures-bind _ _ s
        (λ id t.
          (time : Instant) × Enters before preview.info preview.digest preview.digest time id
            t.committed)
        (Goal before) (silent before (accept_local-Enters env (source_root cfg) preview before s h))
        λ id t (time, e).
          Ensures-weaken-failure _ t (print_line_lem env {F = Kept before} _ t)
            (λ _ same. local_package d y p (subst (Enters before _ _ _ time id) (sym same) e))
            (λ k. k)

  pub add_local_lem :
      (c : ℕ) (path : Text) (before : Tables) (s : Session)
      → a.local_dir ≡ c ∷ path
      → Same env before s
      → Ensures (add_local env cfg outside a.yes (c ∷ path)) s (Goal before) (Kept before)
  unfolding add_local
  add_local_lem c path before s d h =
      Ensures-bind _ _ s _ (Goal before)
        (or_import_failed_lem (preview_local outside.place cfg.local_import_root (c ∷ path)) before
          s h)
        λ preview s₁ (p, h₁).
          Ensures-bind _ _ s₁ (λ _. Same env before) (Goal before)
            (silent before (show_preview-Same env before preview s₁ h₁))
            λ _ s₂ h₂.
              Ensures-bind _ _ s₂ _ (Goal before)
                (silent before (
                  ask_lem env before outside.line (codes "Import this local package?") a.yes s₂ h₂))
                λ answer s₃ (y, h₃). import_local_lem preview answer before s₃ d p y h₃

  show_nodes-Same :
      (nodes : List AurNode) (before : Tables) (s : Session)
      → Same env before s
      → Ensures (show_nodes env cfg outside nodes) s (λ _. Same env before) (Same env before)
  unfolding show_nodes
  show_nodes-Same [] before s h = Ensures-pure tt s h
  show_nodes-Same (node ∷ nodes) before s h =
      Ensures-bind _ (λ _. show_nodes env cfg outside nodes) s (λ _. Same env before)
        (λ _. Same env before) (show_preview-Same env before node.preview s h)
        λ _ t k. show_nodes-Same nodes before t k

  -- What a graph is found to be.
  abbrev Found : Text → List AurNode → Type 0
  Found name nodes =
      (w : Walk) × (resolve_aur_graph outside.world outside.fuel name ≡ done w) × (nodes ≡ w.nodes)

  graph_nodes_lem :
      (name : Text) (found : Visit) (before : Tables) (s : Session)
      → resolve_aur_graph outside.world outside.fuel name ≡ found
      → Same env before s
      → Ensures
          (graph_nodes found)
          s
          (λ nodes t. Found name nodes × Same env before t)
          (Kept before)
  graph_nodes_lem name spent before s e h = Ensures-raise import_failed s (untouched h)
  graph_nodes_lem name failed before s e h = Ensures-raise import_failed s (untouched h)
  graph_nodes_lem name (done w) before s e h = Ensures-pure w.nodes s ((w, e, refl), h)

  first_node_lem :
      (nodes : List AurNode) (before : Tables) (s : Session)
      → Same env before s
      → Ensures (first_node nodes) s (λ _. Same env before) (Same env before)
  first_node_lem [] before s h = Ensures-raise panicked s h
  first_node_lem (node ∷ nodes) before s h = Ensures-pure node s h

  module _ (selected : AurResult)
      (wanted : (w : Walk)
        → resolve_aur_graph outside.world outside.fuel selected.name ≡ done w
        → Wanted cfg outside a w) where
    import_graph_lem :
        (root : AurNode) (nodes : List AurNode) (answer : Bool) (before : Tables) (s : Session)
        → Found selected.name nodes
        → Answer outside.line a.yes answer
        → Same env before s
        → Ensures (import_graph env cfg outside root nodes answer) s (Goal before) (Kept before)
    unfolding import_graph
    import_graph_lem root nodes false before s f y h = Ensures-pure tt s (declined y h)
    import_graph_lem root nodes true before s (w, e, same) y h =
        Ensures-bind _ _ s (λ _ t. Each cfg outside w.nodes before t.committed) (Goal before)
          (Ensures-weaken-failure _ s
            (accept_nodes_lem env cfg outside root.preview.info.name nodes 0 s)
            (λ _ es. moved (Each cfg outside) same h es)
            (λ part. first_of_graph a refl (wanted w e) y (moved (Some cfg outside) same h part)))
          λ root_id t es.
            Ensures-weaken-failure _ t (print_line_lem env {F = Kept before} _ t)
              (λ _ k. graph (wanted w e) y (subst (Each cfg outside w.nodes before) (sym k) es))
              (λ k. k)

    pub add_selected_lem :
        (before : Tables) (s : Session)
        → Same env before s
        → Ensures (add_selected env cfg outside a.yes selected) s (Goal before) (Kept before)
    unfolding add_selected
    add_selected_lem before s h =
        Ensures-bind _ _ s _ (Goal before) (graph_nodes_lem selected.name _ before s refl h)
          λ nodes s₁ (f, h₁).
            Ensures-bind _ _ s₁ (λ _. Same env before) (Goal before)
              (silent before (first_node_lem nodes before s₁ h₁))
              λ root s₂ h₂.
                Ensures-bind _ _ s₂ (λ _. Same env before) (Goal before)
                  (silent before (show_nodes-Same nodes before s₂ h₂))
                  λ _ s₃ h₃.
                    Ensures-bind _ _ s₃ (λ _. Same env before) (Goal before)
                      (silent before (print_line-Same env before _ s₃ h₃))
                      λ _ s₄ h₄.
                        Ensures-bind _ _ s₄ _ (Goal before)
                          (silent before (
                            ask_lem env before outside.line (codes "Import this AUR package?") a.yes
                              s₄ h₄))
                          λ answer s₅ (y, h₅). import_graph_lem root nodes answer before s₅ f y h₅
