-- ===== src/Scheduler.antt =====
-- RunScheduler, refreshAUR and refreshLocal of internal/roles.go: new revisions of the packages
-- that are tracked enter the database.
pub mod Due
pub mod Aur
pub mod Local
pub mod Turns
use aurforge.Common.{
  ℕ, zero, suc, Text, codes, text_eq, Bool, true, false, ◌&&◌, List, [], ◌∷◌, Option, none, some,
  if◌then◌else◌, select, any, is_space, trim_left,
}
use aurforge.Store.{Tables, ManagedPackage, PackageVersion, SourceKind, aur, local, Instant}
use aurforge.Session.{
  ok, Env, Session, M, ◌>>=◌, ◌>>◌, pure, attempt, moment, client_query, perform, is_absent,
  check_present, run_updater,
}
use aurforge.Config.{Config, source_root}
use aurforge.Notify.{notify_failure}
use aurforge.Registry.{has_revision}
use aurforge.Host.Paths.{join_path}
use aurforge.Import.{World, Preview, AurNode, preview_aur}
use aurforge.Import.Local.{Workplace, preview_local}
use aurforge.Accept.{accept_aur, accept_local}

abbrev pub is_aur : SourceKind → Bool
is_aur aur = true
is_aur local = false

abbrev pub is_local : SourceKind → Bool
is_local aur = false
is_local local = true

-- SourceKindEQ(...), EnabledEQ(true)
unfoldable pub tracked_packages : (SourceKind → Bool) → Tables → List ManagedPackage
tracked_packages kind t = select (λ p. kind p.source_kind && p.enabled) t.packages

unfoldable pub field : Text → Text
unfolding is_space
field [] = []
field (c ∷ s) = let rest = field s in if is_space c then [] else c ∷ rest

-- strings.Fields, of which only the first is used.
abbrev pub field_of : Text → Option Text
field_of [] = none
field_of (c ∷ s) = some (field (c ∷ s))

unfoldable pub first_field : Text → Option Text
unfolding trim_left field
first_field s = field_of (trim_left s)

abbrev pub head_of : Option Text → Option Text
head_of none = none
head_of (some printed) = first_field printed

-- What is found outside, which changes between two calls: what git ls-remote prints for
-- a repository of the AUR (`none` is an error), the AUR and its clones, the local directories, and
-- what git says of a kept directory. `failure_text` is the text of an error of the updater.
pub record Surroundings : Type 0 where
  pub remote : ℕ → Text → Option Text
  pub world : ℕ → World
  pub place : ℕ → Workplace
  pub committed_at : Text → Option Instant
  pub failure_text : ℕ → Text

-- A loop over packages that ends at the first error.
pub each_package : (ManagedPackage → M (Unit {0})) → List ManagedPackage → M (Unit {0})
each_package f [] = pure tt
each_package f (p ∷ ps) = do f p; each_package f ps

module _ (env : Env) (cfg : Config) (around : Surroundings) where
  -- Exist(ctx) for a version of the package.
  unfoldable pub is_known : ManagedPackage → Text → M Bool
  is_known tracked revision =
      client_query env (λ t. ok (any (has_revision tracked.id revision) t.versions))

  pub accept_node : Option AurNode → M (Unit {0})
  accept_node none = pure tt
  accept_node (some node) = do
    accept_aur env around.committed_at (source_root cfg) cfg.update_delay node.preview node.revision
    pure tt

  pub unless_known : ManagedPackage → Bool → M (Unit {0})
  unfolding accept_node
  unless_known tracked true = pure tt
  unless_known tracked false = do
    n ← moment
    accept_node (preview_aur (around.world n) tracked.source_ref)

  pub after_poll : ManagedPackage → Option Text → M (Unit {0})
  unfolding unless_known
  after_poll tracked none = pure tt
  after_poll tracked (some revision) = do
    known ← is_known tracked revision
    unless_known tracked known

  -- One turn of the loop of refreshAUR.
  pub refresh_aur_package : ManagedPackage → M (Unit {0})
  unfolding after_poll
  refresh_aur_package tracked = do
    n ← moment
    after_poll tracked (head_of (around.remote n tracked.source_ref))

  unfoldable pub refresh_aur : M (Unit {0})
  unfolding each_package refresh_aur_package
  refresh_aur = do
    packages ← client_query env (λ t. ok (tracked_packages is_aur t))
    each_package refresh_aur_package packages

  pub accept_unless_known : Preview → Bool → M (Unit {0})
  accept_unless_known preview true = pure tt
  accept_unless_known preview false = do accept_local env (source_root cfg) preview; pure tt

  pub after_rename_check : ManagedPackage → Preview → Bool → M (Unit {0})
  unfolding accept_unless_known
  after_rename_check tracked preview false = pure tt
  after_rename_check tracked preview true = do
    known ← is_known tracked preview.digest
    accept_unless_known preview known

  -- The preview behind the updater.
  pub after_update : ManagedPackage → Option Preview → M (Unit {0})
  unfolding after_rename_check
  after_update tracked none = pure tt
  after_update tracked (some preview) =
      after_rename_check tracked preview (text_eq preview.info.name tracked.name)

  abbrev pub preview_tracked : ℕ → ManagedPackage → Option Preview
  preview_tracked n tracked =
      preview_local (around.place n) cfg.local_import_root tracked.source_ref

  pub after_updater : ManagedPackage → Bool → M (Unit {0})
  unfolding after_update
  after_updater tracked true = do n ← moment; after_update tracked (preview_tracked n tracked)
  after_updater tracked false = do
    n ← moment
    notify_failure env cfg tracked.name (around.failure_text n)

  -- os.Stat of the updater: absent, an error, or there.
  pub if_there : ManagedPackage → Text → Bool → M (Unit {0})
  unfolding after_updater
  if_there tracked path false = pure tt
  if_there tracked path true = do ran ← perform env (run_updater path); after_updater tracked ran

  pub unless_absent : ManagedPackage → Text → Bool → M (Unit {0})
  unfolding if_there
  unless_absent tracked path true = pure tt
  unless_absent tracked path false = do
    there ← perform env (check_present (join_path path (codes "update-pkgbuild.sh")))
    if_there tracked path there

  pub run_update : ManagedPackage → Option Preview → M (Unit {0})
  unfolding unless_absent
  run_update tracked none = pure tt
  run_update tracked (some preview) = do
    absent ← is_absent env
    unless_absent tracked preview.path absent

  -- One turn of the loop of refreshLocal.
  pub refresh_local_package : ManagedPackage → M (Unit {0})
  unfolding run_update
  refresh_local_package tracked = do n ← moment; run_update tracked (preview_tracked n tracked)

  unfoldable pub refresh_local : M (Unit {0})
  unfolding each_package refresh_local_package
  refresh_local = do
    packages ← client_query env (λ t. ok (tracked_packages is_local t))
    each_package refresh_local_package packages

  -- One turn of the loop of RunScheduler, up to the wait: both errors are only logged.
  unfoldable pub scheduler_round : M (Unit {0})
  unfolding refresh_aur refresh_local
  scheduler_round = do attempt refresh_aur; attempt refresh_local; pure tt

  -- As many turns as pass before the context ends.
  unfoldable pub run_scheduler : ℕ → M (Unit {0})
  unfolding scheduler_round
  run_scheduler zero = pure tt
  run_scheduler (suc turns) = do scheduler_round; run_scheduler turns
