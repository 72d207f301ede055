-- ===== src/Remove/References.antt =====
-- RemovePackage of internal/remove.go leaves no row behind that names a row that is gone.
use aurforge.Common.{ℕ, List}
use aurforge.Store.{Tables}
use aurforge.Store.References.{IsReferenced}
use aurforge.Session.{Session}
use aurforge.Remove.{version_ids, job_ids, own_versions, jobs_of}

module _ (id : ℕ) (base : Tables) (r : IsReferenced base) where
  abbrev gone_versions : List ℕ
  gone_versions = version_ids (own_versions id base)

  abbrev gone_jobs : List ℕ
  gone_jobs = job_ids (jobs_of gone_versions base)
