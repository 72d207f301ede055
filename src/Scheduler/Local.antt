-- ===== src/Scheduler/Local.antt =====
-- refreshLocal of internal/roles.go: a local package is imported whole or not at all.
use aurforge.Common.{
  ℕ, Text, codes, text_eq, text_eq→eq, Bool, true, false, Option, none, some, ◌≡◌, refl, sym, subst,
  any,
}
use aurforge.Store.{Tables, ManagedPackage, local, Instant}
use aurforge.Session.{Env, Session, check_present, run_updater}
use aurforge.Session.Ensures.{
  Ensures, Ensures-bind, Ensures-pure, Ensures-weaken-failure, ok_injective,
}
use aurforge.Config.{Config, source_root}
use aurforge.Package.{PackageInfo}
use aurforge.Registry.{has_revision}
use aurforge.Host.Paths.{join_path}
use aurforge.Import.{Preview}
use aurforge.Accept.Imports.{accept_local-Enters}
use aurforge.Accept.Chain.{Imports, and_import}
use aurforge.Scheduler.{
  Surroundings, is_known, accept_unless_known, after_rename_check, after_update, preview_tracked,
  after_updater, if_there, unless_absent, run_update, refresh_local_package,
}
use aurforge.Scheduler.Due.{
  IsTracked, LocalDue, Grown, Grows, moment-Grows, perform-Grows, is_absent-Grows,
  client_query-Grows, notify_failure-Grows,
}

module _ (env : Env) (cfg : Config) (around : Surroundings) (before : Tables)
    (tracked : ManagedPackage) (is_tracked : IsTracked local before tracked) where
  abbrev Due : Tables → PackageInfo → Text → Instant → Type 0
  Due = LocalDue cfg around before

  abbrev Previewed : ℕ → Preview → Type 0
  Previewed n preview = preview_tracked env cfg around n tracked ≡ some preview

  accept_unless_known-Grows :
      (n : ℕ) (preview : Preview) (known : Bool) (s : Session)
      → Previewed n preview
      → preview.info.name ≡ tracked.name
      → any (has_revision tracked.id preview.digest) s.committed.versions ≡ known
      → Grown env before Due s
      → Ensures
          (accept_unless_known env cfg around preview known)
          s
          (λ _. Grown env before Due)
          (Grown env before Due)
  unfolding accept_unless_known
  accept_unless_known-Grows n preview true s e same f g = Ensures-pure tt s g
  accept_unless_known-Grows n preview false s e same f g =
      Ensures-bind _ _ s (λ _. Grown env before Due) (λ _. Grown env before Due)
        (Ensures-weaken-failure _ s
          (accept_local-Enters env (source_root cfg) preview s.committed s refl)
          (λ id (time, enters).
            and_import g
              (record {
                tracked = tracked;
                is_tracked = is_tracked;
                when = n;
                preview = preview;
                previewed = e;
                of_preview = refl;
                revised = refl;
                named = same;
                fresh = f;
              })
              enters)
          (λ same_tables. subst (Imports Due before) (sym same_tables) g))
        λ _ t k. Ensures-pure tt t k

  after_rename_check-Grows :
      (n : ℕ) (preview : Preview) (kept : Bool)
      → Previewed n preview
      → text_eq preview.info.name tracked.name ≡ kept
      → Grows env before Due (after_rename_check env cfg around tracked preview kept)
  unfolding after_rename_check is_known
  after_rename_check-Grows n preview false e h s g = Ensures-pure tt s g
  after_rename_check-Grows n preview true e h s g =
      Ensures-bind _ (accept_unless_known env cfg around preview) s _ (λ _. Grown env before Due)
        (client_query-Grows env before Due _ s g)
        λ known t (q, k).
          accept_unless_known-Grows n preview known t e (text_eq→eq _ _ h) (ok_injective q) k

  after_update-Grows :
      (n : ℕ) (found : Option Preview)
      → preview_tracked env cfg around n tracked ≡ found
      → Grows env before Due (after_update env cfg around tracked found)
  unfolding after_update
  after_update-Grows n none e s g = Ensures-pure tt s g
  after_update-Grows n (some preview) e s g = after_rename_check-Grows n preview _ e refl s g

  after_updater-Grows :
      (ran : Bool) → Grows env before Due (after_updater env cfg around tracked ran)
  unfolding after_updater
  after_updater-Grows true s g =
      Ensures-bind _ _ s (λ _. Grown env before Due) (λ _. Grown env before Due)
        (moment-Grows env before Due s g) λ n t k. after_update-Grows n _ refl t k
  after_updater-Grows false s g =
      Ensures-bind _ _ s (λ _. Grown env before Due) (λ _. Grown env before Due)
        (moment-Grows env before Due s g)
        λ n t k. notify_failure-Grows env before Due cfg tracked.name (around.failure_text n) t k

  if_there-Grows :
      (path : Text) (there : Bool)
      → Grows env before Due (if_there env cfg around tracked path there)
  unfolding if_there
  if_there-Grows path false s g = Ensures-pure tt s g
  if_there-Grows path true s g =
      Ensures-bind _ _ s (λ _. Grown env before Due) (λ _. Grown env before Due)
        (perform-Grows env before Due (run_updater path) s g) λ ran t k. after_updater-Grows ran t k

  unless_absent-Grows :
      (path : Text) (absent : Bool)
      → Grows env before Due (unless_absent env cfg around tracked path absent)
  unfolding unless_absent
  unless_absent-Grows path true s g = Ensures-pure tt s g
  unless_absent-Grows path false s g =
      Ensures-bind _ _ s (λ _. Grown env before Due) (λ _. Grown env before Due)
        (perform-Grows env before Due (check_present (join_path path (codes "update-pkgbuild.sh")))
          s g)
        λ there t k. if_there-Grows path there t k

  run_update-Grows :
      (found : Option Preview) → Grows env before Due (run_update env cfg around tracked found)
  unfolding run_update
  run_update-Grows none s g = Ensures-pure tt s g
  run_update-Grows (some preview) s g =
      Ensures-bind _ _ s (λ _. Grown env before Due) (λ _. Grown env before Due)
        (is_absent-Grows env before Due s g)
        λ absent t k. unless_absent-Grows preview.path absent t k

  pub refresh_local_package-Grows :
      Grows env before Due (refresh_local_package env cfg around tracked)
  unfolding refresh_local_package
  refresh_local_package-Grows s g =
      Ensures-bind _ _ s (λ _. Grown env before Due) (λ _. Grown env before Due)
        (moment-Grows env before Due s g)
        λ n t k. run_update-Grows (preview_tracked env cfg around n tracked) t k
