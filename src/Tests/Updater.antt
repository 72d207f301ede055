-- ===== src/Tests/Updater.antt =====
-- A directory that root owns, with a file that root left behind and one of another user.
use aurforge.Common.{
  codes, text_eq, true, [], ◌∷◌, some, ◌≡◌, refl, has_prefix, digits, digits_onto,
}
use aurforge.Updater.{
  Owned, plain_file, sym_link, directory, no_entry, and_entry, Machine, not_run, as_other,
  run_local_updater, prepare, chosen_identity, updater_identity, parse_uint32, restore, give_away,
  updater_environment,
}
use aurforge.Updater.Unprivileged.{IsUnprivileged, run_local_updater-IsUnprivileged}

abbrev host : Machine
host = record {
  euid = 0;
  owner = some (record { uid = 0; gid = 0 });
  updater_account = some (codes "977", codes "978");
  may_chown = λ path. true;
  home = some (codes "/tmp/h");
  home_given = true;
  environment = codes "HOME=/root" ∷ codes "LANG=C" ∷ [];
}

abbrev imported : Owned
imported = directory (some 0) (
    and_entry (codes "PKGBUILD") (plain_file (some 0))
      (and_entry (codes "x") (plain_file (some 5)) no_entry))

updater_run :
    run_local_updater host (codes "tool") (codes "/imports/tool") imported
    ≡ as_other
        (directory (some 977) (
          and_entry
            (codes "PKGBUILD")
            (plain_file (some 977))
            (and_entry (codes "x") (plain_file (some 5)) no_entry)))
        (record { uid = 977; gid = 978 })
        (codes "LANG=C" ∷ codes "HOME=/tmp/h" ∷ [])
unfolding run_local_updater prepare chosen_identity updater_identity parse_uint32 restore give_away
    updater_environment has_prefix digits digits_onto text_eq
updater_run = refl

linked_run :
    run_local_updater host
      (codes "tool")
      (codes "/imports/tool")
      (directory (some 0) (and_entry (codes "l") sym_link no_entry))
    ≡ not_run
unfolding run_local_updater prepare chosen_identity updater_identity parse_uint32 restore give_away
    updater_environment has_prefix digits digits_onto text_eq
linked_run = refl

run_local_updater-IsUnprivileged_example :
    IsUnprivileged host
      (codes "tool")
      (run_local_updater host (codes "tool") (codes "/imports/tool") imported)
run_local_updater-IsUnprivileged_example =
    run_local_updater-IsUnprivileged host (codes "tool") (codes "/imports/tool") imported
