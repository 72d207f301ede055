-- ===== src/Import/Graph.antt =====
-- ResolveAURGraph of internal/import.go: the search ends, and what it returns is the set of
-- packages that the root needs.
pub mod Unseen
pub mod Visits
pub mod First
use aurforge.Common.{
  ℕ, zero, suc, ◌<◌, ◌≤◌, Text, text_eq, Bool, true, false, List, [], ◌∷◌, ◌++◌, map, Option, none,
  some, ◌≡◌, ◌⊎◌, inl, inr, refl, sym, ◌∙◌, ap, subst, arith, Memᴰ, All, All-mem, All-append,
  All-intro, Distinct, Distinct-snoc, mem-append, mem-snoc, Bool-cases, Option-cases, some_inj,
  length,
}
use aurforge.Package.{Requirement}
use aurforge.Import.{
  World, AurNode, Walk, Visit, spent, failed, done, is_visited, append_node, visit_new, and_visit,
  visit_each, preview_aur, aur_package_exists, visit, resolve_aur_graph,
}
use aurforge.Import.Refs.{preview_aur-ref, preview_aur-listed}
use aurforge.Import.Graph.Unseen.{
  is_visited-mem, is_visited-fresh, unseen, unseen-le, unseen-lt, unseen-nil,
}
use aurforge.Import.Graph.Visits.{
  ref, requirements, IsClosedIn, Needed, itself, through, IsTidy, Leads, Outcome, stuck, finished,
  visit_lem,
}

-- What ResolveAURGraph returns: the root's package, once each package that is needed, and with
-- each its dependencies in the AUR.
pub record IsGraph (world : World) (root : Text) (nodes : List AurNode) : Type 0 where
  pub has_root : Memᴰ root (map ref nodes)
  pub once : Distinct (λ (x : Text). x) (map ref nodes)
  pub previews : All (λ (n : AurNode). preview_aur world (ref n) ≡ some n) nodes
  pub only_needed : All (Needed world root) (map ref nodes)
  pub whole : All (IsClosedIn (map ref nodes)) nodes

pub data IsResolved (world : World) (root : Text) : Visit → Type 0 where
  graph : {w : Walk} → IsGraph world root w.nodes → IsResolved world root (done w)
  no_preview :
      {name : Text}
      → Needed world root name
      → preview_aur world name ≡ none
      → IsResolved world root failed

-- If the AUR lists no more names than those known, the root among them, the search ends with more
-- fuel than there are names: either the preview of a package that is needed failed, or it returns
-- each package that the root needs once, with its preview, and no other.
pub resolve_aur_graph-IsResolved :
    (world : World) (known : List Text) (root : Text) (fuel : ℕ)
    → ((asker dep : Text)
        → aur_package_exists (world.listed asker dep) dep ≡ some true
        → Memᴰ dep known)
    → Memᴰ root known
    → length known < fuel
    → IsResolved world root (resolve_aur_graph world fuel root)
unfolding resolve_aur_graph
resolve_aur_graph-IsResolved world known root fuel lists m h =
    let enough = unseen-nil known in
    conclude (
      visit_lem world root known lists fuel root (record { visited = []; nodes = [] }) (omega arith)
        m itself (record { in_step = refl; distinct = tt; previewed = tt; needed = tt }))
  where
    from_empty : {P : Type 0} {n : AurNode} → Memᴰ n [] ⊎ P → P
    from_empty (inl k) = elim k [ ]
    from_empty (inr p) = p

    conclude :
        {r : Visit}
        → Outcome world root (record { visited = []; nodes = [] }) (λ v. Memᴰ root v.visited) r
        → IsResolved world root r
    conclude (stuck n p) = no_preview n p
    conclude (finished {v = v} l r) =
        let s : v.visited ≡ map ref v.nodes = sym l.tidy.in_step in
        graph (record {
          has_root = subst (Memᴰ root) s r;
          once = subst (Distinct (λ (x : Text). x)) s l.tidy.distinct;
          previews = l.tidy.previewed;
          only_needed = subst (All (Needed world root)) s l.tidy.needed;
          whole =
              All-intro (IsClosedIn (map ref v.nodes)) v.nodes
                λ n k. subst (λ names. IsClosedIn names n) s (from_empty (l.closed n k));
        })
