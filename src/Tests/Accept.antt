-- ===== src/Tests/Accept.antt =====
-- A first revision of a package, committed at time 40, with a delay of 100.
use aurforge.Common.{text_eq, ◌+◌, Text, codes, false, [], ◌∷◌, Option, some, ◌≡◌, refl, map}
use aurforge.Store.{Tables, Job, Instant}
use aurforge.Session.{Env, Session, now, perform, is_absent, begin, commit, query, execute, insert}
use aurforge.Session.Ensures.{Ensures}
use aurforge.Queue.{ahead, eligible_at_from_commit}
use aurforge.Import.{Preview}
use aurforge.Registry.{
  create_package, find_package, has_name, find_version, has_revision, insert_package,
  insert_version, insert_job, metadata_of, is_other_version,
}
use aurforge.Store.{source_kind_of}
use aurforge.Accept.{accept_aur, target_path}
use aurforge.Accept.Delay.{IsDelayed, accept_aur-IsDelayed}

abbrev willing : Env
willing = record { fails = λ n. false; absent = λ n. false; clock = λ n. n + 100 }

abbrev no_tables : Tables
no_tables = record { packages = []; versions = []; dependencies = []; jobs = []; artifacts = [] }

abbrev first_session : Session
first_session = record {
  committed = no_tables;
  working = no_tables;
  identities = record {
    next_package = 1;
    next_version = 1;
    next_dependency = 1;
    next_job = 1;
    next_artifact = 1;
  };
  effects = [];
  calls = 0;
}

abbrev tool : Preview
tool = record {
  info = record {
    name = codes "tool";
    version = codes "1";
    release = codes "1";
    source_kind = codes "aur";
    source_ref = codes "tool";
    split_packages = codes "tool" ∷ [];
    dependencies = [];
    warnings = [];
  };
  digest = codes "00";
  path = codes "/preview";
  audit_messages = [];
}

abbrev at_forty : Text → Option Instant
at_forty directory = some 40

abbrev accepted : Session
accepted =
    (accept_aur willing at_forty (codes "/data") (ahead 100) tool (codes "r1") first_session).1

eligible_times : map (λ (j : Job). j.eligible_at) accepted.committed.jobs ≡ 140 ∷ []
unfolding accept_aur create_package now perform is_absent begin commit query execute insert
    find_package has_name find_version has_revision insert_package insert_version insert_job
    metadata_of is_other_version source_kind_of eligible_at_from_commit text_eq
eligible_times = refl

accept_aur-IsDelayed_example :
    Ensures
      (accept_aur willing at_forty (codes "/data") (ahead 100) tool (codes "r1"))
      first_session
      (λ id t.
        IsDelayed
          (at_forty (target_path (codes "/data") (codes "aur") (codes "tool") (codes "r1")))
          (ahead 100)
          id
          no_tables
          t.committed)
      (λ t. t.committed ≡ no_tables)
accept_aur-IsDelayed_example =
    accept_aur-IsDelayed willing at_forty (codes "/data") (ahead 100) tool (codes "r1")
      first_session
