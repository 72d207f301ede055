-- ===== src/Import/Graph/Visits.antt =====
-- ResolveAURGraph of internal/import.go: what a visit adds to the walk, and that it ends.
use aurforge.Common.{
  ℕ, zero, suc, ◌<◌, Text, Bool, true, false, List, [], ◌∷◌, ◌++◌, map, none, some, ◌≡◌, ◌⊎◌, inl,
  inr, refl, sym, ◌∙◌, ap, subst, arith, Memᴰ, All, All-append, Distinct, Distinct-snoc, mem-append,
  mem-snoc, Bool-cases, Option-cases,
}
use aurforge.Package.{Requirement}
use aurforge.Import.{
  World, AurNode, Walk, Visit, failed, done, is_visited, append_node, visit_new, and_visit,
  visit_each, preview_aur, aur_package_exists, visit,
}
use aurforge.Import.Refs.{preview_aur-ref, preview_aur-listed}
use aurforge.Import.Graph.Unseen.{is_visited-mem, is_visited-fresh, unseen, unseen-le, unseen-lt}

abbrev pub ref : AurNode → Text
ref node = node.preview.info.source_ref

abbrev pub requirements : AurNode → List Requirement
requirements node = node.preview.info.dependencies

-- Every AUR dependency of the node is among the names.
abbrev pub IsClosedIn : List Text → AurNode → Type 0
IsClosedIn names node =
    (d : Requirement) → Memᴰ d (requirements node) → d.aur ≡ true → Memᴰ d.name names

-- The packages that the root needs: itself, and the AUR dependencies of those.
pub data Needed (world : World) (root : Text) : Text → Type 0 where
  itself : Needed world root root
  through :
      {name : Text} {node : AurNode} {d : Requirement}
      → Needed world root name
      → preview_aur world name ≡ some node
      → Memᴰ d (requirements node)
      → d.aur ≡ true
      → Needed world root d.name

module _ (world : World) (root : Text) where
  pub record IsTidy (w : Walk) : Type 0 where
    pub in_step : map ref w.nodes ≡ w.visited
    pub distinct : Distinct (λ (x : Text). x) w.visited
    pub previewed : All (λ (n : AurNode). preview_aur world (ref n) ≡ some n) w.nodes
    pub needed : All (Needed world root) w.visited

  -- What a part of the walk does: what it adds has all its dependencies at the end.
  pub record Leads (w v : Walk) : Type 0 where
    pub tidy : IsTidy v
    pub grows : (x : Text) → Memᴰ x w.visited → Memᴰ x v.visited
    pub closed : (n : AurNode) → Memᴰ n v.nodes → Memᴰ n w.nodes ⊎ IsClosedIn v.visited n

  -- A visit ends with a walk, or because a package that is needed has no preview.
  pub data Outcome (w : Walk) (R : Walk → Type 0) : Visit → Type 0 where
    stuck :
        {name : Text} → Needed world root name → preview_aur world name ≡ none → Outcome w R failed
    finished : {v : Walk} → Leads w v → R v → Outcome w R (done v)

  Leads-trans : {w v u : Walk} → Leads w v → Leads v u → Leads w u
  Leads-trans {w} {v} {u} a b = record {
    tidy = b.tidy;
    grows = λ x m. b.grows x (a.grows x m);
    closed = λ n m. elim (b.closed n m) [
      | inr c ↦ inr c
      | inl k ↦ elim (a.closed n k) [
        | inl j ↦ inl j
        | inr c ↦ inr (λ d p q. b.grows d.name (c d p q))
      ]
    ];
  }

  and_visit_lem :
      {w : Walk} {R S : Walk → Type 0} {r : Visit} (f : Walk → Visit)
      → Outcome w R r
      → ((v : Walk) → Leads w v → R v → Outcome v S (f v))
      → Outcome w S (and_visit r f)
  and_visit_lem f (stuck n p) k = stuck n p
  and_visit_lem {w} {R} {S} f (finished {v = v} l r) k = extend (k v l r)
    where
      extend : {x : Visit} → Outcome v S x → Outcome w S x
      extend (stuck n p) = stuck n p
      extend (finished l' s) = finished (Leads-trans l l') s

  Outcome-map :
      {w : Walk} {R S : Walk → Type 0} {r : Visit}
      → ((v : Walk) → Leads w v → R v → S v)
      → Outcome w R r
      → Outcome w S r
  Outcome-map f (stuck n p) = stuck n p
  Outcome-map f (finished l r) = finished l (f _ l r)

  append_node-IsTidy :
      {name : Text} {node : AurNode} {w : Walk}
      → is_visited name w.visited ≡ false
      → preview_aur world name ≡ some node
      → Needed world root name
      → IsTidy w
      → IsTidy (append_node name node w)
  append_node-IsTidy {name} {node} {w} new p n t =
      let same = preview_aur-ref world name node p in
      record {
        in_step = map-snoc ref w.nodes node ∙ cc (t.in_step, same);
        distinct =
            Distinct-snoc (λ x. x) w.visited name (is_visited-fresh name w.visited new) t.distinct;
        previewed =
            All-append (λ (m : AurNode). preview_aur world (ref m) ≡ some m) w.nodes (node ∷ [])
              t.previewed (ap (preview_aur world) same ∙ p, tt);
        needed = All-append (Needed world root) w.visited (name ∷ []) t.needed (n, tt);
      }
    where
      map-snoc :
          (f : AurNode → Text) (xs : List AurNode) (x : AurNode)
          → map f (xs ++ x ∷ []) ≡ map f xs ++ f x ∷ []
      map-snoc f [] x = refl
      map-snoc f (y ∷ ys) x = ap (λ l. f y ∷ l) (map-snoc f ys x)

  -- The names that the AUR lists are those of `known`.
  module _ (known : List Text)
      (lists : (asker dep : Text)
        → aur_package_exists (world.listed asker dep) dep ≡ some true
        → Memᴰ dep known) where
    abbrev Good : (Text → Walk → Visit) → ℕ → Type 0
    Good go fuel =
        (name : Text) (w : Walk)
        → unseen known w.visited < fuel
        → Memᴰ name known
        → Needed world root name
        → IsTidy w
        → Outcome w (λ v. Memᴰ name v.visited) (go name w)

    Leads-unseen :
        {w v : Walk} {fuel : ℕ}
        → Leads w v
        → unseen known w.visited < fuel
        → unseen known v.visited < fuel
    Leads-unseen {w} {v} l h = let le = unseen-le w.visited v.visited l.grows known in omega arith

    visit_each_lem :
        {go : Text → Walk → Visit} {fuel : ℕ}
        → Good go fuel
        → (deps : List Requirement)
        → ((d : Requirement)
            → Memᴰ d deps
            → d.aur ≡ true
            → Memᴰ d.name known × Needed world root d.name)
        → (w : Walk) → unseen known w.visited < fuel
        → IsTidy w
        → Outcome w
            (λ v. (d : Requirement) → Memᴰ d deps → d.aur ≡ true → Memᴰ d.name v.visited)
            (visit_each go deps w)
    unfolding visit_each
    visit_each_lem good [] h w f t =
        finished (record { tidy = t; grows = λ x m. m; closed = λ n m. inl m })
          (λ d m e. elim m [ ])
    visit_each_lem {go} {fuel} good (dep ∷ deps) h w f t = elim (Bool-cases dep.aur) [
      | inl e ↦ subst branch (sym e) (
          and_visit_lem (visit_each go deps)
            (good dep.name w f (h dep (Memᴰ.head refl) e).0 (h dep (Memᴰ.head refl) e).1 t)
            λ v l r.
              Outcome-map (λ u k rs d m on. reached u (k.grows dep.name r) rs d m on)
                (visit_each_lem good deps (λ d m. h d (Memᴰ.tail m)) v (Leads-unseen l f) l.tidy))
      | inr e ↦ subst branch (sym e) (
          Outcome-map (λ u k rs d m on. skipped e u rs d m on)
            (visit_each_lem good deps (λ d m. h d (Memᴰ.tail m)) w f t))
    ]
      where
        branch : Bool → Type 0
        branch b =
            Outcome w
              (λ v. (d : Requirement) → Memᴰ d (dep ∷ deps) → d.aur ≡ true → Memᴰ d.name v.visited)
              (elim b [
                | true ↦ and_visit (go dep.name w) (visit_each go deps)
                | false ↦ visit_each go deps w
              ])

        reached :
            (u : Walk)
            → Memᴰ dep.name u.visited
            → ((d : Requirement) → Memᴰ d deps → d.aur ≡ true → Memᴰ d.name u.visited)
            → (d : Requirement) → Memᴰ d (dep ∷ deps)
            → d.aur ≡ true
            → Memᴰ d.name u.visited
        reached u r rs d (Memᴰ.head q) on =
            subst (λ (x : Requirement). Memᴰ x.name u.visited) (sym q) r
        reached u r rs d (Memᴰ.tail m) on = rs d m on

        skipped :
            dep.aur ≡ false
            → (u : Walk) → ((d : Requirement) → Memᴰ d deps → d.aur ≡ true → Memᴰ d.name u.visited)
            → (d : Requirement) → Memᴰ d (dep ∷ deps)
            → d.aur ≡ true
            → Memᴰ d.name u.visited
        skipped e u rs d (Memᴰ.head q) on = cc
        skipped e u rs d (Memᴰ.tail m) on = rs d m on

    visit_new_lem :
        {go : Text → Walk → Visit} {fuel : ℕ}
        → Good go fuel
        → (name : Text) (w : Walk) → unseen known w.visited < suc fuel
        → Memᴰ name known
        → Needed world root name
        → IsTidy w
        → is_visited name w.visited ≡ false
        → Outcome w (λ v. Memᴰ name v.visited) (visit_new go name (preview_aur world name) w)
    unfolding visit_new
    visit_new_lem {go} {fuel} good name w f m n t new =
        elim (Option-cases (preview_aur world name)) [
          | inl e ↦ rw e (stuck n e)
          | inr (node, p) ↦
              let start : IsTidy (append_node name node w) = append_node-IsTidy new p n t in
              let fewer =
                unseen-lt w.visited (append_node name node w).visited
                  (λ x k. mem-left x w.visited k) name known m new (mem-snoc name w.visited) in
              rw p (
                from_node node (
                  visit_each_lem good (requirements node) (λ d k on. needs node p d k on)
                    (append_node name node w) (omega arith) start))
        ]
      where
        mem-left : (x : Text) (xs : List Text) → Memᴰ x xs → Memᴰ x (xs ++ name ∷ [])
        mem-left x [] k = elim k [ ]
        mem-left x (y ∷ ys) (Memᴰ.head e) = Memᴰ.head e
        mem-left x (y ∷ ys) (Memᴰ.tail k) = Memᴰ.tail (mem-left x ys k)

        needs :
            (node : AurNode)
            → preview_aur world name ≡ some node
            → (d : Requirement) → Memᴰ d (requirements node)
            → d.aur ≡ true
            → Memᴰ d.name known × Needed world root d.name
        needs node p d k on = (
          lists name d.name (preview_aur-listed world name node p d k ∙ ap some on),
          through n p k on,
        )

        from_node :
            (node : AurNode) {r : Visit}
            → Outcome (append_node name node w) (λ v. IsClosedIn v.visited node) r
            → Outcome w (λ v. Memᴰ name v.visited) r
        from_node node (stuck k p) = stuck k p
        from_node node (finished {v = v} l c) =
            finished
              (record {
                tidy = l.tidy;
                grows = λ x k. l.grows x (mem-left x w.visited k);
                closed = λ x k. elim (l.closed x k) [
                  | inr b ↦ inr b
                  | inl b ↦ old_or_new x (mem-append w.nodes (node ∷ []) b)
                ];
              })
              (l.grows name (mem-snoc name w.visited))
          where
            old_or_new :
                (x : AurNode)
                → Memᴰ x w.nodes ⊎ Memᴰ x (node ∷ [])
                → Memᴰ x w.nodes ⊎ IsClosedIn v.visited x
            old_or_new x (inl k) = inl k
            old_or_new x (inr (Memᴰ.head q)) = inr (subst (IsClosedIn v.visited) (sym q) c)
            old_or_new x (inr (Memᴰ.tail k)) = elim k [ ]

    pub visit_lem : (fuel : ℕ) → Good (visit world fuel) fuel
    unfolding visit
    visit_lem zero name w f m n t = absurd (omega arith)
    visit_lem (suc fuel) name w f m n t = elim (Bool-cases (is_visited name w.visited)) [
      | inl e ↦
          rw (e, visit)
            (finished (record { tidy = t; grows = λ x k. k; closed = λ x k. inl k })
              (is_visited-mem name w.visited e))
      | inr e ↦ rw (e, visit) (visit_new_lem (visit_lem fuel) name w f m n t e)
    ]
