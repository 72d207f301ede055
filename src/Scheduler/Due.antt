-- ===== src/Scheduler/Due.antt =====
-- What RunScheduler of internal/roles.go may import, and actions that import it.
use aurforge.Common.{
  ℕ, ◌≤◌, Text, codes, Bool, true, false, ◌&&◌, List, [], ◌∷◌, some, ◌≡◌, refl, sym, subst, arith,
  Memᴰ, All-mem, select-All, mem-select, any,
}
use aurforge.Store.{Tables, ManagedPackage, SourceKind, aur, local, Instant}
use aurforge.Session.{moment, Result, ok, Env, Session, M, perform, is_absent, client_query, Effect}
use aurforge.Session.Ensures.{
  Ensures, Ensures-bind, Ensures-pure, Ensures-client_query, Ensures-weaken-failure,
}
use aurforge.Config.{Config, source_root}
use aurforge.Notify.{notify_failure}
use aurforge.Notify.Quiet.{notify_failure_lem}
use aurforge.Package.{PackageInfo}
use aurforge.Queue.{add_duration}
use aurforge.Registry.{has_revision}
use aurforge.Import.{AurNode, Preview, preview_aur}
use aurforge.Import.Local.{preview_local}
use aurforge.Accept.{target_path}
use aurforge.Accept.Chain.{Imports}
use aurforge.Scheduler.{Surroundings, tracked_packages, is_aur, is_local, each_package}

-- A package that the tables hold, of the kind, and not disabled.
pub record IsTracked (kind : SourceKind) (t : Tables) (tracked : ManagedPackage) : Type 0 where
  pub listed : Memᴰ tracked t.packages
  pub of_kind : tracked.source_kind ≡ kind
  pub enabled : tracked.enabled ≡ true

pub tracked_packages-IsTracked :
    (kind : SourceKind) (is_kind : SourceKind → Bool) (t : Tables) (p : ManagedPackage)
    → ((k : SourceKind) → is_kind k ≡ true → k ≡ kind)
    → Memᴰ p (tracked_packages is_kind t)
    → IsTracked kind t p
unfolding tracked_packages
tracked_packages-IsTracked kind is_kind t p decides m =
    let passes : (is_kind p.source_kind && p.enabled) ≡ true =
      All-mem _ _ (select-All (λ q. is_kind q.source_kind && q.enabled) t.packages) m in
    record {
      listed = mem-select (λ q. is_kind q.source_kind && q.enabled) t.packages m;
      of_kind = decides p.source_kind (ground arith);
      enabled = ground arith;
    }

pub is_aur-eq : (k : SourceKind) → is_aur k ≡ true → k ≡ aur
is_aur-eq aur h = refl
is_aur-eq local h = cc

pub is_local-eq : (k : SourceKind) → is_local k ≡ true → k ≡ local
is_local-eq aur h = cc
is_local-eq local h = refl

module _ (cfg : Config) (around : Surroundings) (before : Tables) where
  -- What refreshAUR may import: the preview of a tracked package of the AUR, at a time that the
  -- delay of the configuration has passed since its commit.
  pub record AurDue (between : Tables) (pkg : PackageInfo) (revision : Text) (eligible_at : Instant)
      : Type 0 where
    pub tracked : ManagedPackage
    pub is_tracked : IsTracked aur before tracked
    pub when : ℕ
    pub node : AurNode
    pub previewed : preview_aur (around.world when) tracked.source_ref ≡ some node
    pub of_node : pkg ≡ node.preview.info
    pub revised : revision ≡ node.revision
    pub commit_time : Instant
    pub committed :
        around.committed_at (target_path (source_root cfg) (codes "aur") pkg.name revision)
        ≡ some commit_time
    pub waits : add_duration commit_time cfg.update_delay ≤ eligible_at

  -- What refreshLocal may import: a preview of a tracked local package that has kept its name and
  -- has no version with that digest.
  pub record LocalDue (between : Tables) (pkg : PackageInfo) (revision : Text)
      (eligible_at : Instant) : Type 0 where
    pub tracked : ManagedPackage
    pub is_tracked : IsTracked local before tracked
    pub when : ℕ
    pub preview : Preview
    pub previewed :
        preview_local (around.place when) cfg.local_import_root tracked.source_ref ≡ some preview
    pub of_preview : pkg ≡ preview.info
    pub revised : revision ≡ preview.digest
    pub named : pkg.name ≡ tracked.name
    pub fresh : any (has_revision tracked.id revision) between.versions ≡ false

-- An action that adds imports to those that the tables show since `before`, also where it fails.
module _ (env : Env) (before : Tables)
    (Allowed : Tables → PackageInfo → Text → Instant → Type 0) where
  abbrev pub Grown : Session → Type 0
  Grown t = Imports Allowed before t.committed

  abbrev pub Grows : M (Unit {0}) → Type 0
  Grows m = (s : Session) → Grown s → Ensures m s (λ _. Grown) Grown

  pub moment-Grows : (s : Session) → Grown s → Ensures moment s (λ _. Grown) Grown
  unfolding moment
  moment-Grows s g = record { success = λ a e. g; failure = λ e h. cc }

  pub perform-Grows :
      (x : Effect) (s : Session) → Grown s → Ensures (perform env x) s (λ _. Grown) Grown
  unfolding perform
  perform-Grows x s g = record { success = λ a e. g; failure = λ e h. cc }

  pub is_absent-Grows : (s : Session) → Grown s → Ensures (is_absent env) s (λ _. Grown) Grown
  unfolding is_absent
  is_absent-Grows s g = record { success = λ a e. g; failure = λ e h. cc }

  pub client_query-Grows :
      {A : Type 0} (q : Tables → Result A) (s : Session)
      → Grown s
      → Ensures (client_query env q) s (λ a t. (q t.committed ≡ ok a) × Grown t) Grown
  client_query-Grows q s g =
      Ensures-weaken-failure _ s (Ensures-client_query env s.committed s refl q)
        (λ a (e, same).
          (subst (λ t. q t ≡ ok a) (sym same) e, subst (Imports Allowed before) (sym same) g))
        (λ same. subst (Imports Allowed before) (sym same) g)

  pub each_package-Grows :
      (f : ManagedPackage → M (Unit {0})) (packages : List ManagedPackage)
      → ((p : ManagedPackage) → Memᴰ p packages → Grows (f p))
      → Grows (each_package f packages)
  unfolding each_package
  each_package-Grows f [] h s g = Ensures-pure tt s g
  each_package-Grows f (p ∷ ps) h s g =
      Ensures-bind (f p) (λ _. each_package f ps) s (λ _. Grown) (λ _. Grown)
        (h p (Memᴰ.head refl) s g) λ _ t k. each_package-Grows f ps (λ q m. h q (Memᴰ.tail m)) t k

  pub notify_failure-Grows :
      (cfg : Config) (subject failure : Text) → Grows (notify_failure env cfg subject failure)
  notify_failure-Grows cfg subject failure s g =
      Ensures-weaken-failure _ s
        (notify_failure_lem env {F = λ t. t.committed ≡ s.committed} cfg subject failure s)
        (λ _ same. subst (Imports Allowed before) (sym same) g)
        (λ same. subst (Imports Allowed before) (sym same) g)
