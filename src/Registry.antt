-- ===== src/Registry.antt =====
-- CreatePackage of internal/db.go: a package, its revision and the job that builds it enter the
-- database in one transaction.
pub mod Steps
pub mod Registered
pub mod Outcome
pub mod Supersede
use aurforge.Common.{
  ℕ, suc, ◌+◌, Text, codes, text_eq, Bool, true, false, not, ◌&&◌, List, [], ◌∷◌, ◌++◌, Option,
  none, some, ◌==◌, if◌then◌else◌, select, update, any, map,
}
use aurforge.Store.{
  Instant, Tables, Identities, ManagedPackage, PackageVersion, Dependency, DependencyKind, Job,
  SourceKind, Status, pending, skipped, is_pending, repo_dependency, aur_dependency, source_kind_of,
}
use aurforge.Store.Json.{Metadata, strings, scalar, stored}
use aurforge.Session.{
  Error, not_found, not_singular, constraint, invalid_value, Result, ok, err, Env, M, ◌>>=◌, ◌>>◌,
  pure, raise, attempt, or_rollback, now, begin, commit, query, execute, insert,
}
use aurforge.Package.{PackageInfo, Requirement}
use aurforge.Queue.{mark_superseded}

-- Only(ctx): the one row of a selection.
abbrev pub only_row {ℓ} : {A : Type ℓ} → List A → Result A
only_row [] = err not_found
only_row (a ∷ []) = ok a
only_row (_ ∷ _ ∷ _) = err not_singular

unfoldable pub has_name : Text → ManagedPackage → Bool
has_name name p = text_eq p.name name

unfoldable pub has_revision : ℕ → Text → PackageVersion → Bool
has_revision package_id revision v = v.package_id == package_id && text_eq v.revision revision

unfoldable pub same_dependency : ℕ → Text → Dependency → Bool
same_dependency version_id name d =
    d.package_version_id == version_id && text_eq d.dependency_name name

abbrev pub dep_kind : Text → DependencyKind
dep_kind value = if text_eq value (codes "aur") then aur_dependency else repo_dependency

abbrev pub kind_of : Bool → Text
kind_of aur = if aur then codes "aur" else codes "repo"

abbrev pub validated : Option SourceKind → Result SourceKind
validated none = err invalid_value
validated (some k) = ok k

-- The insertions, with the unique indexes of ent/schema.
unfoldable pub insert_package : ManagedPackage → Tables → Result (ManagedPackage × Tables)
insert_package p t =
    if any (has_name p.name) t.packages
    then err constraint
    else ok (p, record t { packages = t.packages ++ p ∷ [] })

unfoldable pub insert_version : PackageVersion → Tables → Result (PackageVersion × Tables)
insert_version v t =
    if any (has_revision v.package_id v.revision) t.versions
    then err constraint
    else ok (v, record t { versions = t.versions ++ v ∷ [] })

unfoldable pub insert_dependency : Dependency → Tables → Result (Unit {0} × Tables)
insert_dependency d t =
    if any (same_dependency d.package_version_id d.dependency_name) t.dependencies
    then err constraint
    else ok (tt, record t { dependencies = t.dependencies ++ d ∷ [] })

unfoldable pub insert_job : Job → Tables → Result (Unit {0} × Tables)
insert_job j t = ok (tt, record t { jobs = t.jobs ++ j ∷ [] })

unfoldable pub update_package : ℕ → (ManagedPackage → ManagedPackage) → Tables → Result Tables
update_package id f t =
    if any (λ p. p.id == id) t.packages
    then ok (record t { packages = update (λ p. p.id == id) f t.packages })
    else err not_found

-- The row that the builder of a managed package makes, and the fields that an import renews.
abbrev pub new_package : PackageInfo → SourceKind → Text → Instant → Instant → ℕ → ManagedPackage
new_package pkg kind path created updated id = record {
  id = id;
  name = pkg.name;
  source_kind = kind;
  source_ref = pkg.source_ref;
  source_path = path;
  enabled = true;
  created_at = created;
  updated_at = updated;
}

abbrev pub renew_package :
    PackageInfo → SourceKind → Text → Instant → ManagedPackage → ManagedPackage
renew_package pkg kind path updated p = record p {
  source_kind = kind;
  source_ref = pkg.source_ref;
  source_path = path;
  updated_at = updated;
}

unfoldable pub metadata_of : PackageInfo → Metadata
metadata_of pkg = stored (
    (codes "name", scalar pkg.name)
    ∷ (codes "source_kind", scalar pkg.source_kind)
    ∷ (codes "source_ref", scalar pkg.source_ref)
    ∷ (codes "split_packages", strings pkg.split_packages)
    ∷ (codes "warnings", strings pkg.warnings)
    ∷ [])

abbrev pub new_version : PackageInfo → ℕ → Text → Text → Instant → ℕ → PackageVersion
new_version pkg package_id revision digest seen id = record {
  id = id;
  package_id = package_id;
  revision = revision;
  source_digest = digest;
  pkgver = pkg.version;
  pkgrel = pkg.release;
  metadata = metadata_of pkg;
  first_seen_at = seen;
}

abbrev pub new_job : ℕ → Instant → Instant → ℕ → Job
new_job version_id eligible_at created id = record {
  id = id;
  package_version_id = version_id;
  kind = codes "build";
  status = pending;
  eligible_at = eligible_at;
  claimed_at = none;
  finished_at = none;
  attempts = 0;
  log_path = [];
  error = [];
  created_at = created;
}

-- The versions of the package but the one to keep, and the jobs of those that still wait.
unfoldable pub is_other_version : ℕ → ℕ → PackageVersion → Bool
is_other_version package_id keep v = v.package_id == package_id && not (v.id == keep)

unfoldable pub is_waiting_for : List ℕ → Job → Bool
is_waiting_for ids j = is_pending j.status && any (λ i. i == j.package_version_id) ids

abbrev pub version_ids : List PackageVersion → List ℕ
version_ids = map (λ v. v.id)

unfoldable pub skip_waiting : List ℕ → Instant → Tables → Tables
skip_waiting ids time t = record t {
  jobs = update (is_waiting_for ids) (mark_superseded time) t.jobs;
}

unfoldable pub find_package : Text → Tables → Result ManagedPackage
find_package name t = only_row (select (has_name name) t.packages)

unfoldable pub find_version : ℕ → Text → Tables → Result PackageVersion
find_version package_id revision t = only_row (select (has_revision package_id revision) t.versions)

module _ (env : Env) where
  pub save_package : PackageInfo → Text → Result ManagedPackage → M ManagedPackage
  save_package pkg path (err not_found) = do
    created ← now env
    updated ← now env
    kind ← (λ s. (validated (source_kind_of pkg.source_kind), s))
    insert env (λ ids. ids.next_package) (λ ids. record ids { next_package = ids.next_package + 1 })
        (λ id. insert_package (new_package pkg kind path created updated id))
  save_package pkg path (err e) = raise e
  save_package pkg path (ok managed) = do
    updated ← now env
    kind ← (λ s. (validated (source_kind_of pkg.source_kind), s))
    execute env (update_package managed.id (renew_package pkg kind path updated))
    pure (renew_package pkg kind path updated managed)

  pub save_dependencies : ℕ → List Requirement → M (Unit {0})
  save_dependencies version_id [] = pure tt
  save_dependencies version_id (dep ∷ deps) = do
    insert env (λ ids. ids.next_dependency)
        (λ ids. record ids { next_dependency = ids.next_dependency + 1 })
        (λ id. insert_dependency (record {
          id = id;
          package_version_id = version_id;
          dependency_name = dep.name;
          dependency_kind = dep_kind (kind_of dep.aur);
        }))
    save_dependencies version_id deps

  skip_versions : List PackageVersion → M (Unit {0})
  skip_versions [] = pure tt
  skip_versions (v ∷ vs) = do
    time ← now env
    execute env (λ t. ok (skip_waiting (version_ids (v ∷ vs)) time t))

  pub skip_pending_jobs_for_package : ℕ → ℕ → M (Unit {0})
  unfolding skip_versions
  skip_pending_jobs_for_package package_id keep = do
    versions ← query env (λ t. ok (select (is_other_version package_id keep) t.versions))
    skip_versions versions

  -- What follows the search for the revision; a new one brings its dependencies and a job.
  pub save_version :
      PackageInfo → ℕ → Text → Text → Instant → Result PackageVersion → M PackageVersion
  unfolding save_dependencies skip_pending_jobs_for_package
  save_version pkg package_id revision digest eligible_at (err not_found) = do
    seen ← now env
    version ←
        insert env (λ ids. ids.next_version)
          (λ ids. record ids { next_version = ids.next_version + 1 })
          (λ id. insert_version (new_version pkg package_id revision digest seen id))
    save_dependencies version.id pkg.dependencies
    skip_pending_jobs_for_package package_id version.id
    created ← now env
    insert env (λ ids. ids.next_job) (λ ids. record ids { next_job = ids.next_job + 1 })
        (λ id. insert_job (new_job version.id eligible_at created id))
    pure version
  save_version pkg package_id revision digest eligible_at (err e) = raise e
  save_version pkg package_id revision digest eligible_at (ok version) = pure version

  pub save_and_commit :
      PackageInfo → Text → Text → Instant → ManagedPackage → Result PackageVersion → M ℕ
  save_and_commit pkg revision digest eligible_at managed known = do
    version ← save_version pkg managed.id revision digest eligible_at known
    commit env
    pure version.id

  pub register_revision : PackageInfo → Text → Text → Instant → ManagedPackage → M ℕ
  register_revision pkg revision digest eligible_at managed = do
    known ← attempt (query env (find_version managed.id revision))
    save_and_commit pkg revision digest eligible_at managed known

  pub register_found : PackageInfo → Text → Text → Text → Instant → Result ManagedPackage → M ℕ
  register_found pkg path revision digest eligible_at found = do
    managed ← save_package pkg path found
    register_revision pkg revision digest eligible_at managed

  pub register : PackageInfo → Text → Text → Text → Instant → M ℕ
  unfolding save_package save_version save_and_commit register_revision register_found
  register pkg path revision digest eligible_at = do
    found ← attempt (query env (find_package pkg.name))
    register_found pkg path revision digest eligible_at found

  -- `defer tx.Rollback()` acts on every way out but a commit that succeeded.
  unfoldable pub create_package : PackageInfo → Text → Text → Text → Instant → M ℕ
  unfolding register
  create_package pkg path revision digest eligible_at = do
    begin env
    or_rollback (register pkg path revision digest eligible_at)
