-- ===== src/Tests/Registry.antt =====
-- A third revision of the package is imported.
use aurforge.Common.{ℕ, codes, text_eq, false, [], ◌∷◌, map, ◌≡◌, refl}
use aurforge.Store.{Job, pending, skipped, source_kind_of}
use aurforge.Session.{ok, Session, now, begin, commit, query, execute, insert}
use aurforge.Session.Ensures.{Ensures}
use aurforge.Package.{PackageInfo}
use aurforge.Registry.{
  create_package, metadata_of, has_name, has_revision, same_dependency, insert_package,
  insert_version, insert_dependency, insert_job, update_package, is_other_version, is_waiting_for,
  skip_waiting, find_package, find_version,
}
use aurforge.Registry.Outcome.{create_package-Registered}
use aurforge.Registry.Registered.{Imported, IsManaged}
use aurforge.Registry.Supersede.{IsQueued, create_package-supersedes}
use aurforge.Tests.Queue.{calm, two_revisions, connection}

abbrev demo_info : PackageInfo
demo_info = record {
  name = codes "demo";
  version = codes "2";
  release = codes "1";
  source_kind = codes "aur";
  source_ref = codes "demo";
  split_packages = codes "demo" ∷ [];
  dependencies = record { name = codes "glibc"; aur = false } ∷ [];
  warnings = [];
}

abbrev after_import : Session
after_import = (create_package calm demo_info (codes "/new") (codes "ccc") [] 50 connection).1

import_run : (create_package calm demo_info (codes "/new") (codes "ccc") [] 50 connection).0 ≡ ok 3
unfolding create_package now begin commit query execute insert find_package find_version has_name
    has_revision same_dependency insert_package insert_version insert_dependency insert_job
    update_package is_other_version is_waiting_for skip_waiting metadata_of source_kind_of text_eq
import_run = refl

imported_statuses :
    map (λ (j : Job). j.status) after_import.committed.jobs ≡ skipped ∷ skipped ∷ pending ∷ []
unfolding create_package now begin commit query execute insert find_package find_version has_name
    has_revision same_dependency insert_package insert_version insert_dependency insert_job
    update_package is_other_version is_waiting_for skip_waiting metadata_of source_kind_of text_eq
imported_statuses = refl

create_package-Registered_example :
    Ensures
      (create_package calm demo_info (codes "/new") (codes "ccc") [] 50)
      connection
      (Imported demo_info (codes "ccc") [] 50 two_revisions)
      (λ t. t.committed ≡ two_revisions)
create_package-Registered_example =
    create_package-Registered calm demo_info (codes "/new") (codes "ccc") [] 50 connection

create_package-supersedes_example :
    (package_id : ℕ) × IsQueued two_revisions (codes "ccc") 50 package_id 3 after_import.committed
    × IsManaged demo_info package_id after_import.committed
create_package-supersedes_example =
    create_package-supersedes calm demo_info (codes "/new") (codes "ccc") [] 50 connection 3
      import_run
