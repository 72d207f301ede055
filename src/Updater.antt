-- ===== src/Updater.antt =====
-- runLocalUpdater of internal/updater.go: the script of a local import runs as another user than
-- root.
pub mod Unprivileged
use aurforge.Common.{
  ℕ, Text, codes, text_eq, Bool, true, false, not, ◌&&◌, List, [], ◌∷◌, ◌++◌, Option, none, some,
  ltb, ◌==◌, if◌then◌else◌, and_then, digits, has_prefix, select,
}

-- The import directory with the owner of each entry; `none` is an error of Info.
mutual
  pub data Owned : Type 0 where
    plain_file : Option ℕ → Owned
    sym_link : Owned
    directory : Option ℕ → OwnedEntries → Owned

  pub data OwnedEntries : Type 0 where
    no_entry : OwnedEntries
    and_entry : Text → Owned → OwnedEntries → OwnedEntries

-- strconv.ParseUint(text, 10, 32)
abbrev pub below_limit : Option ℕ → Option ℕ
below_limit none = none
below_limit (some n) = if ltb n 4294967296 then some n else none

unfoldable pub parse_uint32 : Text → Option ℕ
unfolding digits
parse_uint32 s = below_limit (digits s)

-- The user and the group that the script runs as.
pub record Identity : Type 0 where
  pub uid : ℕ
  pub gid : ℕ

-- What the program finds: its own user, the owner of the directory, the updater account as the
-- texts of its numbers, whether a path can be given to another owner, the home directory that is
-- made, whether that could be given away, and the environment.
pub record Machine : Type 0 where
  pub euid : ℕ
  pub owner : Option Identity
  pub updater_account : Option (Text × Text)
  pub may_chown : Text → Bool
  pub home : Option Text
  pub home_given : Bool
  pub environment : List Text

unfoldable pub updater_identity : Option (Text × Text) → Option Identity
unfolding parse_uint32
updater_identity none = none
updater_identity (some (uid_text, gid_text)) = and_then (parse_uint32 uid_text) (λ uid.
    and_then (parse_uint32 gid_text)
      (λ gid. if uid == 0 then none else some (record { uid = uid; gid = gid })))

unfoldable pub chosen_identity : Machine → Option Identity
unfolding updater_identity
chosen_identity m = and_then m.owner (λ owner.
    let account = updater_identity m.updater_account in
    if owner.uid == 0 then account else some owner)

abbrev pub is_git_dir : Text → Bool
is_git_dir name = text_eq name (codes ".git")

-- An entry that root owns is given away; `none` is an error.
unfoldable pub give_away : (Text → Bool) → ℕ → Text → Option ℕ → Option (Option ℕ)
give_away may uid path none = none
give_away may uid path (some owner) =
    if owner == 0 then if may path then some (some uid) else none else some (some owner)

-- The walk that restores the owner, over the names and the paths of the entries.
module _ (may : Text → Bool) (uid : ℕ) where
  unfoldable mutual
    pub restore : Text → Text → Owned → Option Owned
    restore name path (plain_file owner) =
        and_then (give_away may uid path owner) (λ o. some (plain_file o))
    restore name path sym_link = none
    restore name path (directory owner es) =
        let inside =
          and_then (give_away may uid path owner)
            (λ o. and_then (restore_entries path es) (λ us. some (directory o us))) in
        if is_git_dir name then some (directory owner es) else inside

    pub restore_entries : Text → OwnedEntries → Option OwnedEntries
    restore_entries path no_entry = some no_entry
    restore_entries path (and_entry name child es) =
        and_then (restore name (path ++ b'/' ∷ name) child)
          (λ c. and_then (restore_entries path es) (λ us. some (and_entry name c us)))

-- How the script is run: as the program's own user, or with the tree, the identity and the
-- environment that were made ready.
pub data Run : Type 0 where
  not_run as_self : Run
  as_other : Owned → Identity → List Text → Run

unfoldable pub updater_environment : List Text → Text → List Text
updater_environment environment home =
    select (λ value. not (has_prefix (codes "HOME=") value)) environment
    ++ (codes "HOME=" ++ home) ∷ []

abbrev pub run_or_not : Option Run → Run
run_or_not none = not_run
run_or_not (some r) = r

unfoldable pub prepare : Machine → Text → Text → Owned → Option Run
unfolding chosen_identity updater_environment
prepare m name path tree = and_then (chosen_identity m) (λ identity.
    and_then (restore m.may_chown identity.uid name path tree) (λ restored. and_then m.home (λ home.
      if m.home_given
      then some (as_other restored identity (updater_environment m.environment home))
      else none)))

unfoldable pub run_local_updater : Machine → Text → Text → Owned → Run
unfolding prepare
run_local_updater m name path tree =
    let prepared = run_or_not (prepare m name path tree) in
    if not (m.euid == 0) then as_self else prepared
