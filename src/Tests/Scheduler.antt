-- ===== src/Tests/Scheduler.antt =====
-- The scheduler at a local package that is tracked and whose updater has run.
use aurforge.Common.{
  Text, codes, text_eq, false, [], ◌∷◌, ◌++◌, none, ◌≡◌, refl, split, join, has_prefix, map, List,
  contains,
}
use aurforge.Store.{PackageVersion, Job, Status, pending, skipped, source_kind_of}
use aurforge.Session.{
  moment, Session, now, perform, is_absent, begin, commit, query, execute, insert, client_query,
}
use aurforge.Session.Ensures.{Ensures}
use aurforge.Config.{config_of}
use aurforge.Registry.{
  create_package, find_package, has_name, find_version, has_revision, insert_package, skip_waiting,
  is_waiting_for, update_package, insert_version, insert_job, metadata_of, is_other_version,
}
use aurforge.Tree.{hash_tree, hash_input, walk, sort_found, insert_found, stream, is_build_artifact}
use aurforge.Host.{abs_path}
use aurforge.Host.Paths.{clean, clean_parts, push_parts, push_part, is_abs, join_path}
use aurforge.Package.Srcinfo.{
  parse_package, dep_name, parse_srcinfo, srcinfo_lines, srcinfo_field, set_base, require_name,
  before_marker, complete, complete_named,
}
use aurforge.Import.{World, audit, audit_package}
use aurforge.Import.Local.{preview_local, local_path, below_root, preview_folder}
use aurforge.Accept.{accept_local}
use aurforge.Accept.Chain.{KeepsHistory}
use aurforge.Scheduler.{
  Surroundings, scheduler_round, run_scheduler, refresh_aur, refresh_local, tracked_packages,
  is_known,
}
use aurforge.Scheduler.Turns.{IsTurn, scheduler_round-IsTurn, run_scheduler-KeepsHistory}
use aurforge.Tests.Worker.{cfg, reliable, starting, one_due}
use aurforge.Tests.Local.{workplace}

abbrev offline : World
offline = record {
  cleared = λ name. false;
  clone = λ name. none;
  listed = λ asker dep. none;
  assignments = λ source. [];
  root_path = λ name. name;
}

abbrev around : Surroundings
around = record {
  remote = λ n ref. none;
  world = λ n. offline;
  place = λ n. workplace;
  committed_at = λ directory. none;
  failure_text = λ n. codes "failed";
}

abbrev refreshed : Session
refreshed = (run_scheduler reliable cfg around 2 starting).1

abbrev state_of : Session → List Text × List Status
state_of s = (
  map (λ (v : PackageVersion). v.revision) s.committed.versions,
  map (λ (j : Job). j.status) s.committed.jobs,
)

refreshed_state :
    state_of refreshed
    ≡ (codes "00" ∷ (codes "PKGBUILD" ++ 0 ∷ codes "b") ∷ [], skipped ∷ pending ∷ [])
unfolding run_scheduler scheduler_round refresh_aur refresh_local tracked_packages is_known moment
    client_query perform is_absent now preview_local local_path below_root preview_folder
    parse_package parse_srcinfo srcinfo_lines srcinfo_field set_base require_name dep_name
    before_marker complete complete_named hash_tree hash_input walk sort_found insert_found stream
    is_build_artifact contains abs_path clean clean_parts push_parts push_part is_abs join_path
    has_prefix split join text_eq audit_package audit accept_local create_package begin commit query
    execute insert find_package has_name find_version has_revision insert_package insert_version
    insert_job metadata_of is_other_version source_kind_of skip_waiting is_waiting_for
    update_package config_of
refreshed_state = refl

scheduler_round-IsTurn_example :
    Ensures
      (scheduler_round reliable cfg around)
      starting
      (λ _ t. IsTurn cfg around one_due t.committed)
      (λ _. ⊥)
scheduler_round-IsTurn_example = scheduler_round-IsTurn reliable cfg around starting

run_scheduler-KeepsHistory_example :
    Ensures
      (run_scheduler reliable cfg around 2)
      starting
      (λ _ t. KeepsHistory one_due t.committed)
      (λ _. ⊥)
run_scheduler-KeepsHistory_example = run_scheduler-KeepsHistory reliable cfg around 2 starting
