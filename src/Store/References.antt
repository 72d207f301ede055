-- ===== src/Store/References.antt =====
-- The tables have no foreign keys: that a job has its version, a version its package and a
-- dependency its version is up to the program.
use aurforge.Common.{◌≡◌, Memᴰ}
use aurforge.Store.{Tables, Job, PackageVersion, ManagedPackage, Dependency}

pub record IsReferenced (t : Tables) : Type 0 where
  pub job_version :
      (j : Job)
      → Memᴰ j t.jobs
      → (v : PackageVersion) × Memᴰ v t.versions × (v.id ≡ j.package_version_id)
  pub dependency_version :
      (d : Dependency)
      → Memᴰ d t.dependencies
      → (v : PackageVersion) × Memᴰ v t.versions × (v.id ≡ d.package_version_id)
  pub version_package :
      (v : PackageVersion)
      → Memᴰ v t.versions
      → (p : ManagedPackage) × Memᴰ p t.packages × (p.id ≡ v.package_id)
