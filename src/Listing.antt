-- ===== src/Listing.antt =====
-- ListPackages of internal/db.go. The order of names is the database's, and an argument; of
-- versions that were seen at the same time the earlier row is taken.
pub mod Lines
pub mod Latest
use aurforge.Common.{
  ℕ, Text, codes, Bool, List, [], ◌∷◌, ◌++◌, Option, none, some, ltb, ◌==◌, if◌then◌else◌, select,
  first_by,
}
use aurforge.Store.{Tables, ManagedPackage, PackageVersion, Job, source_kind_text, status_text}
use aurforge.Session.{
  Error, not_found, Result, ok, err, Env, Session, M, ◌>>=◌, pure, raise, attempt, client_query,
}
use aurforge.Queue.{first_row}

-- Order(Asc(FieldName))
unfoldable pub insert_by_name :
    (Text → Text → Bool) → ManagedPackage → List ManagedPackage → List ManagedPackage
insert_by_name before p [] = p ∷ []
insert_by_name before p (q ∷ qs) =
    let rest = insert_by_name before p qs in if before q.name p.name then q ∷ rest else p ∷ q ∷ qs

unfoldable pub by_name : (Text → Text → Bool) → List ManagedPackage → List ManagedPackage
unfolding insert_by_name
by_name before [] = []
by_name before (p ∷ ps) = insert_by_name before p (by_name before ps)

-- Order(Desc(FieldFirstSeenAt)), First
unfoldable pub last_seen : ℕ → Tables → Option PackageVersion
last_seen package_id t =
    first_by (λ a b. ltb b.first_seen_at a.first_seen_at)
      (select (λ v. v.package_id == package_id) t.versions)

-- Order(Desc(FieldID)), First
unfoldable pub last_job : ℕ → Tables → Option Job
last_job version_id t =
    first_by (λ a b. ltb b.id a.id) (select (λ j. j.package_version_id == version_id) t.jobs)

abbrev pub line_of : ManagedPackage → Text → Text
line_of pkg status =
    pkg.name ++ codes " " ++ source_kind_text pkg.source_kind ++ codes " " ++ status

module _ (env : Env) where
  pub job_line : ManagedPackage → Result Job → M Text
  job_line pkg (ok job) = pure (line_of pkg (status_text job.status))
  job_line pkg (err not_found) = pure (line_of pkg (codes "new"))
  job_line pkg (err e) = raise e

  pub version_line : ManagedPackage → Result PackageVersion → M Text
  unfolding job_line
  version_line pkg (err not_found) = pure (line_of pkg (codes "new"))
  version_line pkg (err e) = raise e
  version_line pkg (ok latest) = do
    job ← attempt (client_query env (λ t. first_row (last_job latest.id t)))
    job_line pkg job

  pub package_lines : List ManagedPackage → M (List Text)
  unfolding version_line
  package_lines [] = pure []
  package_lines (pkg ∷ pkgs) = do
    latest ← attempt (client_query env (λ t. first_row (last_seen pkg.id t)))
    line ← version_line pkg latest
    lines ← package_lines pkgs
    pure (line ∷ lines)

  unfoldable pub list_packages : (Text → Text → Bool) → M (List Text)
  unfolding package_lines
  list_packages before = do
    pkgs ← client_query env (λ t. ok (by_name before t.packages))
    package_lines pkgs
