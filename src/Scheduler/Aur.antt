-- ===== src/Scheduler/Aur.antt =====
-- refreshAUR of internal/roles.go: a package of the AUR is imported whole or not at all.
use aurforge.Common.{ℕ, Text, Bool, true, false, Option, none, some, ◌≡◌, refl, sym, subst}
use aurforge.Store.{Tables, ManagedPackage, aur, Instant}
use aurforge.Session.{Env}
use aurforge.Session.Ensures.{Ensures-bind, Ensures-pure, Ensures-weaken-failure}
use aurforge.Config.{Config, source_root}
use aurforge.Package.{PackageInfo}
use aurforge.Import.{AurNode, preview_aur}
use aurforge.Accept.Imports.{accept_aur-Enters}
use aurforge.Accept.Delay.{eligible_at_from_commit-le}
use aurforge.Accept.Chain.{Imports, and_import}
use aurforge.Scheduler.{
  Surroundings, is_known, accept_node, unless_known, after_poll, head_of, refresh_aur_package,
}
use aurforge.Scheduler.Due.{IsTracked, AurDue, Grown, Grows, moment-Grows, client_query-Grows}

module _ (env : Env) (cfg : Config) (around : Surroundings) (before : Tables)
    (tracked : ManagedPackage) (is_tracked : IsTracked aur before tracked) where
  abbrev Due : Tables → PackageInfo → Text → Instant → Type 0
  Due = AurDue cfg around before

  accept_node-Grows :
      (n : ℕ) (found : Option AurNode)
      → preview_aur (around.world n) tracked.source_ref ≡ found
      → Grows env before Due (accept_node env cfg around found)
  unfolding accept_node
  accept_node-Grows n none e s g = Ensures-pure tt s g
  accept_node-Grows n (some node) e s g =
      Ensures-bind _ _ s (λ _. Grown env before Due) (λ _. Grown env before Due)
        (Ensures-weaken-failure _ s
          (accept_aur-Enters env around.committed_at (source_root cfg) cfg.update_delay node.preview
            node.revision s.committed s refl)
          (λ id (commit_time, time, f, enters).
            and_import g
              (record {
                tracked = tracked;
                is_tracked = is_tracked;
                when = n;
                node = node;
                previewed = e;
                of_node = refl;
                revised = refl;
                commit_time = commit_time;
                committed = f;
                waits = (eligible_at_from_commit-le commit_time time cfg.update_delay).1;
              })
              enters)
          (λ same. subst (Imports Due before) (sym same) g))
        λ _ t k. Ensures-pure tt t k

  unless_known-Grows :
      (known : Bool) → Grows env before Due (unless_known env cfg around tracked known)
  unfolding unless_known
  unless_known-Grows true s g = Ensures-pure tt s g
  unless_known-Grows false s g =
      Ensures-bind _ _ s (λ _. Grown env before Due) (λ _. Grown env before Due)
        (moment-Grows env before Due s g)
        λ n t k. accept_node-Grows n (preview_aur (around.world n) tracked.source_ref) refl t k

  after_poll-Grows :
      (head : Option Text) → Grows env before Due (after_poll env cfg around tracked head)
  unfolding after_poll is_known
  after_poll-Grows none s g = Ensures-pure tt s g
  after_poll-Grows (some revision) s g =
      Ensures-bind _ (unless_known env cfg around tracked) s _ (λ _. Grown env before Due)
        (client_query-Grows env before Due _ s g) λ known t (e, k). unless_known-Grows known t k

  pub refresh_aur_package-Grows : Grows env before Due (refresh_aur_package env cfg around tracked)
  unfolding refresh_aur_package
  refresh_aur_package-Grows s g =
      Ensures-bind _ _ s (λ _. Grown env before Due) (λ _. Grown env before Due)
        (moment-Grows env before Due s g)
        λ n t k. after_poll-Grows (head_of (around.remote n tracked.source_ref)) t k
