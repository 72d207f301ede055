-- ===== src/Remove.antt =====
-- internal/remove.go: a package leaves the database, the pacman repository and the disk.
pub mod ArtifactName
pub mod Keys
pub mod Steps
pub mod Outcome
pub mod References
use aurforge.Common.{
  ℕ, Text, codes, text_eq, Bool, true, false, not, ◌&&◌, ◌||◌, List, [], ◌∷◌, ◌++◌, map, Option,
  none, some, ◌==◌, if◌then◌else◌, select, any,
}
use aurforge.Store.{
  Tables, ManagedPackage, PackageVersion, Job, Artifact, Dependency, is_running, source_kind_text,
}
use aurforge.Store.Json.{split_packages_from_metadata}
use aurforge.Session.{
  Error, not_found, unmanaged_package, build_running, Result, ok, err, Env, M, ◌>>=◌, ◌>>◌, pure,
  raise, or_rollback, attempt, begin, commit, client_query, execute, perform, is_absent,
  repo_remove, remove_repo_file, remove_staging, remove_log, remove_sources,
}
use aurforge.Registry.{find_package}
use aurforge.Remove.ArtifactName.{package_name_from_artifact}
use aurforge.Remove.Keys.{sorted_keys}

-- RemovePackageResult
pub record Removal : Type 0 where
  pub name : Text
  pub source_kind : Text
  pub repo_packages : List Text
  pub artifacts : List Text

abbrev pub member : ℕ → List ℕ → Bool
member i ids = any (λ k. k == i) ids

abbrev pub version_ids : List PackageVersion → List ℕ
version_ids = map (λ v. v.id)

abbrev pub job_ids : List Job → List ℕ
job_ids = map (λ j. j.id)

abbrev pub filenames : List Artifact → List Text
filenames = map (λ a. a.filename)

-- The loop that looks for a job whose build is running.
abbrev pub first_running : List Job → Option Job
first_running [] = none
first_running (j ∷ js) = let rest = first_running js in if is_running j.status then some j else rest

-- The names under which the repository may hold the package, with repetitions.
version_names : List PackageVersion → List Text
version_names [] = []
version_names (v ∷ vs) = split_packages_from_metadata v.metadata ++ version_names vs

artifact_names : List Text → List Text
artifact_names [] = []
artifact_names (f ∷ fs) =
    let rest = artifact_names fs in
    elim (package_name_from_artifact f) [ [] ↦ rest | c ∷ name ↦ (c ∷ name) ∷ rest ]

unfoldable pub repo_names : ManagedPackage → List PackageVersion → List Text → List Text
unfolding version_names artifact_names
repo_names pkg versions files =
    sorted_keys (pkg.name ∷ version_names versions ++ artifact_names files)

-- The deletions. The IN list is the list of ids, and each is made only where its list has an id.
unfoldable pub delete_artifacts : List ℕ → Tables → Tables
delete_artifacts ids t = record t {
  artifacts = select (λ a. not (member a.job_id ids)) t.artifacts;
}

unfoldable pub delete_jobs : List ℕ → Tables → Tables
delete_jobs ids t = record t { jobs = select (λ j. not (member j.id ids)) t.jobs }

unfoldable pub delete_dependencies : List ℕ → Tables → Tables
delete_dependencies ids t = record t {
  dependencies = select (λ d. not (member d.package_version_id ids)) t.dependencies;
}

unfoldable pub delete_versions : List ℕ → Tables → Tables
delete_versions ids t = record t { versions = select (λ v. not (member v.id ids)) t.versions }

-- DeleteOneID: the error is a NotFoundError where no row has the id.
unfoldable pub delete_package : ℕ → Tables → Result Tables
delete_package id t =
    if any (λ p. p.id == id) t.packages
    then ok (record t { packages = select (λ p. not (p.id == id)) t.packages })
    else err not_found

unfoldable pub own_versions : ℕ → Tables → List PackageVersion
own_versions package_id t = select (λ v. v.package_id == package_id) t.versions

unfoldable pub jobs_of : List ℕ → Tables → List Job
jobs_of ids t = select (λ j. member j.package_version_id ids) t.jobs

unfoldable pub artifacts_of : List ℕ → Tables → List Artifact
artifacts_of ids t = select (λ a. member a.job_id ids) t.artifacts

abbrev pub removal : ManagedPackage → List PackageVersion → List Artifact → Removal
removal pkg versions artifacts = record {
  name = pkg.name;
  source_kind = source_kind_text pkg.source_kind;
  repo_packages = repo_names pkg versions (filenames artifacts);
  artifacts = filenames artifacts;
}

-- The query error, with the message for a package that is not managed.
unfoldable pub unmanaged : Text → Result ManagedPackage → Result ManagedPackage
unmanaged name (err not_found) = err (unmanaged_package name)
unmanaged name r = r

module _ (env : Env) where
  each_remove : List Text → M (Unit {0})
  each_remove [] = pure tt
  each_remove (name ∷ names) = do perform env (repo_remove (name ∷ [])); each_remove names

  unless_done : List Text → Bool → M (Unit {0})
  unfolding each_remove
  unless_done names true = pure tt
  unless_done names false = each_remove names

  unless_absent : List Text → Bool → M (Unit {0})
  unfolding unless_done
  unless_absent names true = pure tt
  unless_absent names false = do done ← perform env (repo_remove names); unless_done names done

  pub remove_from_repository : List Text → M (Unit {0})
  unfolding unless_absent
  remove_from_repository [] = pure tt
  remove_from_repository (name ∷ names) = do gone ← is_absent env; unless_absent (name ∷ names) gone

  pub remove_files : List Text → M (Unit {0})
  remove_files [] = pure tt
  remove_files (f ∷ fs) = do
    perform env (remove_repo_file f)
    perform env (remove_repo_file (f ++ codes ".sig"))
    remove_files fs

  pub remove_job_files : List Job → M (Unit {0})
  remove_job_files [] = pure tt
  remove_job_files (j ∷ js) = do
    perform env (remove_staging j.id)
    perform env (remove_log j.id)
    remove_job_files js

  -- A query by a list of ids, left out where the list is empty.
  pub query_jobs : List ℕ → M (List Job)
  query_jobs [] = pure []
  query_jobs (i ∷ ids) = client_query env (λ t. ok (jobs_of (i ∷ ids) t))

  pub query_artifacts : List ℕ → M (List Artifact)
  query_artifacts [] = pure []
  query_artifacts (i ∷ ids) = client_query env (λ t. ok (artifacts_of (i ∷ ids) t))

  pub delete_job_rows : List ℕ → M (Unit {0})
  delete_job_rows [] = pure tt
  delete_job_rows (i ∷ ids) = do
    execute env (λ t. ok (delete_artifacts (i ∷ ids) t))
    execute env (λ t. ok (delete_jobs (i ∷ ids) t))

  pub delete_version_rows : List ℕ → M (Unit {0})
  delete_version_rows [] = pure tt
  delete_version_rows (i ∷ ids) = do
    execute env (λ t. ok (delete_dependencies (i ∷ ids) t))
    execute env (λ t. ok (delete_versions (i ∷ ids) t))

  -- The transaction.
  pub delete_rows : ℕ → List ℕ → List ℕ → M (Unit {0})
  unfolding delete_job_rows delete_version_rows
  delete_rows package_id versions jobs = do
    delete_job_rows jobs
    delete_version_rows versions
    execute env (delete_package package_id)
    commit env

  -- What follows the check that no build is running.
  pub remove_checked : ManagedPackage → List PackageVersion → List Job → M Removal
  unfolding delete_rows query_artifacts remove_from_repository remove_files remove_job_files
  remove_checked pkg versions jobs = do
    artifacts ← query_artifacts (job_ids jobs)
    remove_from_repository (repo_names pkg versions (filenames artifacts))
    remove_files (filenames artifacts)
    begin env
    or_rollback (delete_rows pkg.id (version_ids versions) (job_ids jobs))
    remove_job_files jobs
    perform env (remove_sources (source_kind_text pkg.source_kind) pkg.name)
    pure (removal pkg versions artifacts)

  pub remove_unless_running :
      Text → ManagedPackage → List PackageVersion → List Job → Option Job → M Removal
  unfolding remove_checked
  remove_unless_running name pkg versions jobs (some j) = raise (build_running name j.id)
  remove_unless_running name pkg versions jobs none = remove_checked pkg versions jobs

  unfoldable pub remove_package : Text → M Removal
  unfolding remove_unless_running query_jobs
  remove_package name = do
    pkg ← client_query env (λ t. unmanaged name (find_package name t))
    versions ← client_query env (λ t. ok (own_versions pkg.id t))
    jobs ← query_jobs (version_ids versions)
    remove_unless_running name pkg versions jobs (first_running jobs)
