-- ===== src/Accept.antt =====
-- AcceptAUR and AcceptLocal of internal/import.go: the sources of a preview are kept in the data
-- root and the package enters the database.
pub mod Imports
pub mod Chain
pub mod Delay
use aurforge.Common.{ℕ, Text, codes, Bool, true, false, Option, none, some, List, ◌∷◌}
use aurforge.Store.{Instant}
use aurforge.Session.{
  import_failed, Env, Session, M, ok, ◌>>=◌, ◌>>◌, pure, raise, now, perform, is_absent,
  make_target, copy_source, move_source, make_readable,
}
use aurforge.Queue.{Duration, eligible_at_from_commit}
use aurforge.Registry.{create_package}
use aurforge.Import.{Preview}
use aurforge.Host.Paths.{join_path}

-- filepath.Join(root, kind, name, revision)
abbrev pub target_path : Text → Text → Text → Text → Text
target_path root kind name revision = join_path (join_path (join_path root kind) name) revision

module _ (env : Env) where
  or_fail : Bool → M (Unit {0})
  or_fail true = pure tt
  or_fail false = raise import_failed

  move_or_copy : Text → Bool → M (Unit {0})
  unfolding or_fail
  move_or_copy target true = pure tt
  move_or_copy target false = do copied ← perform env (copy_source target); or_fail copied

  -- What is done where os.Stat finds no target.
  pub keep_aur_sources : Text → Bool → M (Unit {0})
  unfolding move_or_copy
  keep_aur_sources target false = pure tt
  keep_aur_sources target true = do
    made ← perform env (make_target target)
    or_fail made
    moved ← perform env (move_source target)
    move_or_copy target moved
    readable ← perform env (make_readable target)
    or_fail readable

  pub keep_local_sources : Text → Bool → M (Unit {0})
  unfolding or_fail
  keep_local_sources target false = pure tt
  keep_local_sources target true = do
    made ← perform env (make_target target)
    or_fail made
    copied ← perform env (copy_source target)
    or_fail copied
    readable ← perform env (make_readable target)
    or_fail readable

  pub commit_time_of : Option Instant → M Instant
  commit_time_of none = raise import_failed
  commit_time_of (some time) = pure time

  -- `committed_at` is what GitCommitTime returns for a directory; `none` is an error.
  unfoldable pub accept_aur : (Text → Option Instant) → Text → Duration → Preview → Text → M ℕ
  unfolding keep_aur_sources commit_time_of
  accept_aur committed_at root delay preview revision = do
    absent ← is_absent env
    keep_aur_sources (target_path root (codes "aur") preview.info.name revision) absent
    commit_time ←
        commit_time_of (committed_at (target_path root (codes "aur") preview.info.name revision))
    time ← now env
    create_package env preview.info (target_path root (codes "aur") preview.info.name revision)
        revision preview.digest (eligible_at_from_commit commit_time delay time)

  unfoldable pub accept_local : Text → Preview → M ℕ
  unfolding keep_local_sources
  accept_local root preview = do
    absent ← is_absent env
    keep_local_sources (target_path root (codes "local") preview.info.name preview.digest) absent
    time ← now env
    create_package env preview.info
        (target_path root (codes "local") preview.info.name preview.digest) preview.digest
        preview.digest time
