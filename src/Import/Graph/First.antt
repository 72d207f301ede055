-- ===== src/Import/Graph/First.antt =====
-- ResolveAURGraph of internal/import.go: the first node of a graph is the root.
use aurforge.Common.{
  ℕ, zero, suc, Text, true, false, List, [], ◌∷◌, ◌++◌, Option, none, some, ◌≡◌, inl, inr, refl,
  sym, ◌∙◌, ap, Bool-cases, append-nil, append_assoc,
}
use aurforge.Package.{Requirement}
use aurforge.Import.{
  World, AurNode, Walk, Visit, spent, failed, done, is_visited, append_node, visit_new, and_visit,
  visit_each, preview_aur, visit, resolve_aur_graph,
}

done_injective : {w v : Walk} → done w ≡ done v → w ≡ v
done_injective e = cc

-- The nodes of a walk stay in front of those that are added to it.
abbrev Extends : Walk → Walk → Type 0
Extends w v = (more : List AurNode) × (v.nodes ≡ w.nodes ++ more)

Extends-trans : (a b c : Walk) → Extends a b → Extends b c → Extends a c
Extends-trans a b c (m, e) (n, f) = (m ++ n, f ∙ ap (λ l. l ++ n) e ∙ append_assoc a.nodes m n)

abbrev Grows : (Text → Walk → Visit) → Type 0
Grows go = (name : Text) (w v : Walk) → go name w ≡ done v → Extends w v

visit_each-aur :
    (go : Text → Walk → Visit) (dep : Requirement) (deps : List Requirement) (w : Walk)
    → dep.aur ≡ true
    → visit_each go (dep ∷ deps) w ≡ and_visit (go dep.name w) (visit_each go deps)
unfolding visit_each
visit_each-aur go dep deps w e = rw (visit_each, e) refl

visit_each-other :
    (go : Text → Walk → Visit) (dep : Requirement) (deps : List Requirement) (w : Walk)
    → dep.aur ≡ false
    → visit_each go (dep ∷ deps) w ≡ visit_each go deps w
unfolding visit_each
visit_each-other go dep deps w e = rw (visit_each, e) refl

and_visit-done :
    (r : Visit) (f : Walk → Visit) {v : Walk}
    → and_visit r f ≡ done v
    → (u : Walk) × (r ≡ done u) × (f u ≡ done v)
and_visit-done spent f h = cc
and_visit-done failed f h = cc
and_visit-done (done u) f h = (u, refl, h)

visit_each-nil : (go : Text → Walk → Visit) (w : Walk) → visit_each go [] w ≡ done w
unfolding visit_each
visit_each-nil go w = refl

visit_each-Extends :
    (go : Text → Walk → Visit)
    → Grows go
    → (deps : List Requirement) (w v : Walk) → visit_each go deps w ≡ done v
    → Extends w v
visit_each-Extends go grows [] w v h = (
  [],
  ap (λ x. x.nodes) (sym (done_injective (sym (visit_each-nil go w) ∙ h)))
      ∙ sym (append-nil w.nodes),
)
visit_each-Extends go grows (dep ∷ deps) w v h = elim (Bool-cases dep.aur) [
  | inl e ↦
      let (u, reached, rest) =
        and_visit-done (go dep.name w) (visit_each go deps)
          (sym (visit_each-aur go dep deps w e) ∙ h) in
      Extends-trans w u v (grows dep.name w u reached) (visit_each-Extends go grows deps u v rest)
  | inr e ↦ visit_each-Extends go grows deps w v (sym (visit_each-other go dep deps w e) ∙ h)
]

-- A visit of a name that was not visited looks at its preview.
visit_new-done :
    (go : Text → Walk → Visit) (name : Text) (found : Option AurNode) (w : Walk) {v : Walk}
    → visit_new go name found w ≡ done v
    → (node : AurNode) × (found ≡ some node)
      × (visit_each go node.preview.info.dependencies (append_node name node w) ≡ done v)
unfolding visit_new
visit_new-done go name none w h = cc
visit_new-done go name (some node) w h = (node, refl, h)

module _ (world : World) where
  visit-fresh :
      (fuel : ℕ) (name : Text) (w : Walk)
      → is_visited name w.visited ≡ false
      → visit world (suc fuel) name w ≡ visit_new (visit world fuel) name (preview_aur world name) w
  unfolding visit
  visit-fresh fuel name w e = rw (visit, e) refl

  visit-again :
      (fuel : ℕ) (name : Text) (w : Walk)
      → is_visited name w.visited ≡ true
      → visit world (suc fuel) name w ≡ done w
  unfolding visit
  visit-again fuel name w e = rw (visit, e) refl

  visit-spent : (name : Text) (w : Walk) → visit world 0 name w ≡ spent
  unfolding visit
  visit-spent name w = refl

  visit-Extends : (fuel : ℕ) → Grows (visit world fuel)
  visit-Extends zero name w v h = let off : spent ≡ done v = sym (visit-spent name w) ∙ h in cc
  visit-Extends (suc fuel) name w v h = elim (Bool-cases (is_visited name w.visited)) [
    | inl e ↦ (
      [],
      ap (λ x. x.nodes) (sym (done_injective (sym (visit-again fuel name w e) ∙ h)))
          ∙ sym (append-nil w.nodes),
    )
    | inr e ↦
        let (node, p, q) =
          visit_new-done (visit world fuel) name (preview_aur world name) w
            (sym (visit-fresh fuel name w e) ∙ h) in
        Extends-trans w (append_node name node w) v (node ∷ [], refl)
          (visit_each-Extends (visit world fuel) (visit-Extends fuel) node.preview.info.dependencies
            (append_node name node w) v q)
  ]

  -- A graph that ResolveAURGraph returns has a first node, which is the preview of the root.
  pub resolve_aur_graph-first :
      (fuel : ℕ) (root : Text) (w : Walk)
      → resolve_aur_graph world fuel root ≡ done w
      → (node : AurNode) × (more : List AurNode) × (preview_aur world root ≡ some node)
        × (w.nodes ≡ node ∷ more)
  unfolding resolve_aur_graph
  resolve_aur_graph-first zero root w h =
      let start : Walk = record { visited = []; nodes = [] } in
      let off : spent ≡ done w = sym (visit-spent root start) ∙ h in cc
  resolve_aur_graph-first (suc fuel) root w h =
      let start : Walk = record { visited = []; nodes = [] } in
      let (node, p, q) =
        visit_new-done (visit world fuel) root (preview_aur world root) start
          (sym (visit-fresh fuel root start refl) ∙ h) in
      let (more, e) =
        visit_each-Extends (visit world fuel) (visit-Extends fuel) node.preview.info.dependencies
          (append_node root node start) w q in
      (node, more, p, e)
