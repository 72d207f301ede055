-- ===== src/Updater/Unprivileged.antt =====
-- internal/updater.go: what is sure of a script that runs while the program is root.
use aurforge.Common.{
  ℕ, Text, codes, Bool, true, false, not, List, [], ◌∷◌, ◌++◌, Option, none, some, ◌≡◌, ◌≢◌, ◌⊎◌,
  inl, inr, refl, subst, arith, Memᴰ, Bool-cases, ◌==◌, and_then-some, if-true, if-false, some_inj,
  has_prefix, select, mem-snoc, select-All, mem-append, All-mem,
}
use aurforge.Updater.{
  Owned, plain_file, sym_link, directory, OwnedEntries, no_entry, and_entry, Identity, Machine,
  updater_identity, chosen_identity, is_git_dir, give_away, restore, restore_entries, Run, not_run,
  as_self, as_other, updater_environment, run_or_not, prepare, run_local_updater, parse_uint32,
}

-- No entry belongs to root, but in a git directory.
unfoldable mutual
  pub IsGivenAway : Text → Owned → Type 0
  IsGivenAway name (plain_file owner) = owner ≢ some 0
  IsGivenAway name sym_link = Unit
  IsGivenAway name (directory owner es) =
      (is_git_dir name ≡ true) ⊎ ((owner ≢ some 0) × AreGivenAway es)

  pub AreGivenAway : OwnedEntries → Type 0
  AreGivenAway no_entry = Unit
  AreGivenAway (and_entry name child es) = IsGivenAway name child × AreGivenAway es

module _ (may : Text → Bool) (uid : ℕ) (other : uid ≢ 0) where
  give_away_lem :
      (path : Text) (owner : Option ℕ) {o : Option ℕ}
      → give_away may uid path owner ≡ some o
      → o ≢ some 0
  unfolding give_away
  give_away_lem path none h = cc
  give_away_lem path (some owner) h = elim (Bool-cases (owner == 0)) [
    | inl e ↦ elim (Bool-cases (may path)) [ inl f ↦ λ q. other (ground arith) | inr f ↦ cc ]
    | inr e ↦ λ q. absurd (ground arith)
  ]

  mutual
    unfolding restore IsGivenAway

    restore-IsGivenAway :
        (t : Owned) (name path : Text) {u : Owned}
        → restore may uid name path t ≡ some u
        → IsGivenAway name u
    restore-IsGivenAway (plain_file owner) name path h =
        let (o, g, e) = and_then-some (give_away may uid path owner) _ h in
        subst (IsGivenAway name) (some_inj e) (give_away_lem path owner g)
    restore-IsGivenAway sym_link name path h = cc
    restore-IsGivenAway (directory owner es) name path {u} h = elim (Bool-cases (is_git_dir name)) [
      | inl git ↦ subst (IsGivenAway name) (some_inj (if-true _ _ git h)) (inl git)
      | inr other_name ↦
          let (o, g, h₁) =
            and_then-some (give_away may uid path owner) _ (if-false _ _ other_name h) in
          let (us, r, e) = and_then-some (restore_entries may uid path es) _ h₁ in
          subst (IsGivenAway name) (some_inj e)
            (inr (give_away_lem path owner g, restore_entries-AreGivenAway es path r))
    ]

    restore_entries-AreGivenAway :
        (es : OwnedEntries) (path : Text) {us : OwnedEntries}
        → restore_entries may uid path es ≡ some us
        → AreGivenAway us
    restore_entries-AreGivenAway no_entry path h = subst AreGivenAway (some_inj h) tt
    restore_entries-AreGivenAway (and_entry name child es) path h =
        let (c, r, h₁) = and_then-some (restore may uid name (path ++ b'/' ∷ name) child) _ h in
        let (us, rs, e) = and_then-some (restore_entries may uid path es) _ h₁ in
        subst AreGivenAway (some_inj e) (
          restore-IsGivenAway child name (path ++ b'/' ∷ name) r,
          restore_entries-AreGivenAway es path rs,
        )

updater_identity-uid :
    (account : Option (Text × Text)) {i : Identity} → updater_identity account ≡ some i → i.uid ≢ 0
unfolding updater_identity
updater_identity-uid none h = cc
updater_identity-uid (some (uid_text, gid_text)) h =
    let (uid, u, h₁) = and_then-some (parse_uint32 uid_text) _ h in
    let (gid, g, h₂) = and_then-some (parse_uint32 gid_text) _ h₁ in
    elim (Bool-cases (uid == 0)) [
      | inl e ↦ absurd (ground arith)
      | inr e ↦ λ q. absurd (ground arith)
    ]

chosen_identity-uid : (m : Machine) {i : Identity} → chosen_identity m ≡ some i → i.uid ≢ 0
unfolding chosen_identity
chosen_identity-uid m {i} h =
    let (owner, o, h₁) = and_then-some m.owner _ h in
    elim (Bool-cases (owner.uid == 0)) [
      | inl e ↦ updater_identity-uid m.updater_account (if-true _ _ e h₁)
      | inr e ↦ λ q. absurd (ground arith)
    ]

-- Of the values of an environment, one names a home directory, the one given.
abbrev pub HasHome : Text → List Text → Type 0
HasHome home values =
    Memᴰ (codes "HOME=" ++ home) values
    × ((value : Text)
        → Memᴰ value values
        → (has_prefix (codes "HOME=") value ≡ false) ⊎ (value ≡ codes "HOME=" ++ home))

updater_environment-HasHome :
    (environment : List Text) (home : Text) → HasHome home (updater_environment environment home)
unfolding updater_environment
updater_environment-HasHome environment home = (mem-snoc _ _, λ value m. from (mem-append _ _ m))
  where
    others : List Text
    others = select (λ value. not (has_prefix (codes "HOME=") value)) environment

    from :
        {value : Text}
        → Memᴰ value others ⊎ Memᴰ value ((codes "HOME=" ++ home) ∷ [])
        → (has_prefix (codes "HOME=") value ≡ false) ⊎ (value ≡ codes "HOME=" ++ home)
    from {value} (inl m) =
        let off =
          All-mem (λ v. not (has_prefix (codes "HOME=") v) ≡ true) others
            (select-All (λ v. not (has_prefix (codes "HOME=") v)) environment) m in
        inl (ground arith)
    from (inr (Memᴰ.head e)) = inr e
    from (inr (Memᴰ.tail m)) = elim m [ ]

-- A run of the script: with no other user where the program is not root; else as a user that is
-- not root, in a tree of which root owns no entry but in git directories, and with its own home.
pub data IsUnprivileged (m : Machine) (name : Text) : Run → Type 0 where
  no_run : IsUnprivileged m name not_run
  own_user : m.euid ≢ 0 → IsUnprivileged m name as_self
  other_user :
      {tree : Owned} {i : Identity} {environment : List Text} {home : Text}
      → i.uid ≢ 0
      → IsGivenAway name tree
      → m.home ≡ some home
      → HasHome home environment
      → IsUnprivileged m name (as_other tree i environment)

no_value : {A : Type 0} {a : A} → none ≢ some a
no_value e = cc

-- However the machine is set up, the script of a local import never runs as root: where the
-- program is root the script runs as another user, in a directory of which root owns no entry but
-- in git directories, and the only home directory that it is told is the one made for it.
pub run_local_updater-IsUnprivileged :
    (m : Machine) (name path : Text) (tree : Owned)
    → IsUnprivileged m name (run_local_updater m name path tree)
unfolding run_local_updater prepare
run_local_updater-IsUnprivileged m name path tree = elim (Bool-cases (m.euid == 0)) [
  | inl e ↦ rw e (prepared (prepare m name path tree) refl)
  | inr e ↦ rw e (own_user (λ q. absurd (ground arith)))
]
  where
    prepared :
        (o : Option Run) → prepare m name path tree ≡ o → IsUnprivileged m name (run_or_not o)
    prepared none h = no_run
    prepared (some r) h =
        let (identity, i, h₁) = and_then-some (chosen_identity m) _ h in
        let (restored, t, h₂) =
          and_then-some (restore m.may_chown identity.uid name path tree) _ h₁ in
        let (home, k, h₃) = and_then-some m.home _ h₂ in
        let uid = chosen_identity-uid m i in
        elim (Bool-cases m.home_given) [
          | inl e ↦ subst (IsUnprivileged m name) (some_inj (if-true _ _ e h₃)) (
              other_user uid (restore-IsGivenAway m.may_chown identity.uid uid tree name path t) k
                (updater_environment-HasHome m.environment home))
          | inr e ↦ absurd (no_value (if-false _ _ e h₃))
        ]
