-- ===== src/Tests/Queue.antt =====
-- Two revisions of one package, both with a job that waits.
use aurforge.Common.{
  ℕ, ◌+◌, Text, codes, true, false, [], ◌∷◌, map, Option, none, some, ◌≡◌, refl, arith,
}
use aurforge.Store.{Tables, ManagedPackage, PackageVersion, Job, aur, pending, running, skipped}
use aurforge.Session.{Result, ok, Env, Session, now, begin, commit, query, execute}
use aurforge.Session.Ensures.{Ensures}
use aurforge.Queue.{
  ClaimedJob, claim_round, claim_job, next_due, latest_version, due_before, is_due, newer,
  version_by_id, package_by_id, update_job,
}
use aurforge.Queue.Picked.{IsPick, IsLatest, next_due-IsPick, latest_version-IsLatest}
use aurforge.Queue.Claiming.{RoundDone, claim_round-ClaimStep}
use aurforge.Queue.Loop.{ClaimRun, claim_job-ClaimRun}
use aurforge.Queue.Handed.{IsHanded, claim_job-IsHanded}

-- An environment in which nothing fails, every file is there, and the clock starts at 100.
abbrev pub calm : Env
calm = record { fails = λ n. false; absent = λ n. false; clock = λ n. n + 100 }

abbrev pub demo : ManagedPackage
demo = record {
  id = 1;
  name = codes "demo";
  source_kind = aur;
  source_ref = codes "demo";
  source_path = codes "/old";
  enabled = true;
  created_at = 1;
  updated_at = 1;
}

abbrev pub version_at : ℕ → Text → ℕ → PackageVersion
version_at id revision seen = record {
  id = id;
  package_id = 1;
  revision = revision;
  source_digest = [];
  pkgver = codes "1";
  pkgrel = codes "1";
  metadata = [];
  first_seen_at = seen;
}

abbrev waiting : ℕ → ℕ → ℕ → Job
waiting id version eligible = record {
  id = id;
  package_version_id = version;
  kind = codes "build";
  status = pending;
  eligible_at = eligible;
  claimed_at = none;
  finished_at = none;
  attempts = 0;
  log_path = [];
  error = [];
  created_at = 1;
}

-- Two revisions of one package, both with a job that waits.
abbrev pub two_revisions : Tables
two_revisions = record {
  packages = demo ∷ [];
  versions = version_at 1 (codes "aaa") 10 ∷ version_at 2 (codes "bbb") 20 ∷ [];
  dependencies = [];
  jobs = waiting 1 1 5 ∷ waiting 2 2 6 ∷ [];
  artifacts = [];
}

abbrev pub connection : Session
connection = record {
  committed = two_revisions;
  working = two_revisions;
  identities = record {
    next_package = 2;
    next_version = 3;
    next_dependency = 1;
    next_job = 3;
    next_artifact = 1;
  };
  effects = [];
  calls = 0;
}

abbrev session_of {ℓ} : {A : Type ℓ} → Option (A × Session) → Session
session_of none = connection
session_of (some (_, s)) = s

abbrev after_claim : Session
after_claim = session_of (claim_job calm 3 connection)

abbrev handed : ClaimedJob
handed = record {
  id = 2;
  package_name = codes "demo";
  source_path = codes "/old";
  package_version = 2;
}

-- The job of the older revision is skipped, and the other one is handed out.
claim_run : claim_job calm 3 connection ≡ some (ok (some handed), after_claim)
unfolding claim_job claim_round now begin commit query execute next_due due_before is_due newer
    latest_version version_by_id package_by_id update_job
claim_run = refl

claimed_statuses : map (λ (j : Job). j.status) after_claim.committed.jobs ≡ skipped ∷ running ∷ []
unfolding claim_job claim_round now begin commit query execute next_due due_before is_due newer
    latest_version version_by_id package_by_id update_job
claimed_statuses = refl

claim_job-IsHanded_example : IsHanded after_claim.committed handed
claim_job-IsHanded_example =
    claim_job-IsHanded calm 3 connection after_claim handed (omega arith) claim_run

claim_job-ClaimRun_example :
    (r : Result (Option ClaimedJob)) × (t : Session) × (claim_job calm 3 connection ≡ some (r, t))
    × ClaimRun calm connection t r
claim_job-ClaimRun_example = claim_job-ClaimRun calm 3 connection (omega arith)

claim_round-ClaimStep_example :
    Ensures
      (claim_round calm)
      connection
      (RoundDone calm connection)
      (λ t. t.committed ≡ two_revisions)
claim_round-ClaimStep_example = claim_round-ClaimStep calm connection

next_due-IsPick_example : IsPick 100 two_revisions.jobs (next_due 100 two_revisions.jobs)
next_due-IsPick_example = next_due-IsPick 100 two_revisions.jobs

latest_version-IsLatest_example :
    IsLatest 1 two_revisions.versions (latest_version 1 two_revisions.versions)
latest_version-IsLatest_example = latest_version-IsLatest 1 two_revisions.versions
