-- ===== src/Listing/Latest.antt =====
-- ListPackages of internal/db.go: which rows its queries pick, and what a line says.
use aurforge.Common.{
  ℕ, ◌≤◌, Text, codes, map, Bool, true, false, List, [], ◌∷◌, ◌++◌, none, some, ◌≡◌, inl, inr, refl,
  sym, arith, subst, Bool-cases, Option-cases, ltb, ◌==◌, ==_iff, Memᴰ, All-mem, select, select-All,
  select-mem, mem-select, first_by-Least, first_by-none,
}
use mathlib.Core.List.Permᴰ
use mathlib.Core.List.{Permᴰ}
use aurforge.Store.{Tables, ManagedPackage, PackageVersion, Job, status_text, source_kind_text}
use aurforge.Session.{Env, Session}
use aurforge.Session.Ensures.{Ensures, Ensures-weaken}
use aurforge.Listing.{list_packages, by_name, insert_by_name, last_seen, last_job}
use aurforge.Listing.Lines.{package_line, list_packages-map}

-- A version of the package that none of it was seen after.
pub record IsLastSeen (t : Tables) (package_id : ℕ) (v : PackageVersion) : Type 0 where
  pub listed : Memᴰ v t.versions
  pub own : v.package_id ≡ package_id
  pub last :
      (w : PackageVersion)
      → Memᴰ w t.versions
      → w.package_id ≡ package_id
      → w.first_seen_at ≤ v.first_seen_at

-- The job of the version with the greatest id.
pub record IsLastJob (t : Tables) (version_id : ℕ) (j : Job) : Type 0 where
  pub listed : Memᴰ j t.jobs
  pub own : j.package_version_id ≡ version_id
  pub last : (k : Job) → Memᴰ k t.jobs → k.package_version_id ≡ version_id → k.id ≤ j.id

-- The name, the kind of the source and the status, with a space between them.
abbrev Reads : ManagedPackage → Text → Text → Type 0
Reads pkg status line =
    line ≡ pkg.name ++ codes " " ++ source_kind_text pkg.source_kind ++ codes " " ++ status

-- What the line of a package says.
pub data IsLine (t : Tables) (pkg : ManagedPackage) (line : Text) : Type 0 where
  never_seen :
      ((v : PackageVersion) → Memᴰ v t.versions → v.package_id ≡ pkg.id → ⊥)
      → Reads pkg (codes "new") line
      → IsLine t pkg line
  never_queued :
      {v : PackageVersion}
      → IsLastSeen t pkg.id v
      → ((j : Job) → Memᴰ j t.jobs → j.package_version_id ≡ v.id → ⊥)
      → Reads pkg (codes "new") line
      → IsLine t pkg line
  last_status :
      {v : PackageVersion} {j : Job}
      → IsLastSeen t pkg.id v
      → IsLastJob t v.id j
      → Reads pkg (status_text j.status) line
      → IsLine t pkg line

none-selected {ℓ} : {A : Type ℓ} {x : A} (xs : List A) → xs ≡ [] → Memᴰ x xs → ⊥
none-selected xs e m = elim (subst (Memᴰ _) e m) [ ]

last_seen-IsLastSeen :
    (id : ℕ) (t : Tables) (v : PackageVersion) → last_seen id t ≡ some v → IsLastSeen t id v
unfolding last_seen
last_seen-IsLastSeen id t v h =
    let mine = λ (w : PackageVersion). w.package_id == id in
    let (m, l) =
      first_by-Least (λ (a b : PackageVersion). ltb b.first_seen_at a.first_seen_at)
        (λ x y e. ground arith) (λ x y z e f. ground arith) (select mine t.versions) h in
    record {
      listed = mem-select mine t.versions m;
      own =
          (==_iff _ _).0
            (All-mem (λ w. mine w ≡ true) (select mine t.versions) (select-All mine t.versions) m);
      last = λ w n e.
          let off : ltb v.first_seen_at w.first_seen_at ≡ false =
            All-mem (λ (i : PackageVersion). ltb v.first_seen_at i.first_seen_at ≡ false)
              (select mine t.versions) l (select-mem mine t.versions ((==_iff _ _).1 e) n) in
          ground arith;
    }

last_job-IsLastJob : (id : ℕ) (t : Tables) (j : Job) → last_job id t ≡ some j → IsLastJob t id j
unfolding last_job
last_job-IsLastJob id t j h =
    let mine = λ (k : Job). k.package_version_id == id in
    let (m, l) =
      first_by-Least (λ (a b : Job). ltb b.id a.id) (λ x y e. ground arith)
        (λ x y z e f. ground arith) (select mine t.jobs) h in
    record {
      listed = mem-select mine t.jobs m;
      own =
          (==_iff _ _).0
            (All-mem (λ k. mine k ≡ true) (select mine t.jobs) (select-All mine t.jobs) m);
      last = λ k n e.
          let off : ltb j.id k.id ≡ false =
            All-mem (λ (i : Job). ltb j.id i.id ≡ false) (select mine t.jobs) l
              (select-mem mine t.jobs ((==_iff _ _).1 e) n) in
          ground arith;
    }

last_seen-none :
    (id : ℕ) (t : Tables) (v : PackageVersion)
    → last_seen id t ≡ none
    → Memᴰ v t.versions
    → v.package_id ≡ id
    → ⊥
unfolding last_seen
last_seen-none id t v h m e =
    let mine = λ (w : PackageVersion). w.package_id == id in
    none-selected (select mine t.versions) (first_by-none _ (select mine t.versions) h)
      (select-mem mine t.versions ((==_iff _ _).1 e) m)

last_job-none :
    (id : ℕ) (t : Tables) (j : Job)
    → last_job id t ≡ none
    → Memᴰ j t.jobs
    → j.package_version_id ≡ id
    → ⊥
unfolding last_job
last_job-none id t j h m e =
    let mine = λ (k : Job). k.package_version_id == id in
    none-selected (select mine t.jobs) (first_by-none _ (select mine t.jobs) h)
      (select-mem mine t.jobs ((==_iff _ _).1 e) m)

pub package_line-IsLine : (t : Tables) (pkg : ManagedPackage) → IsLine t pkg (package_line t pkg)
package_line-IsLine t pkg = elim (Option-cases (last_seen pkg.id t)) [
  | inl e ↦ never_seen (λ v m own. last_seen-none pkg.id t v e m own) (rw e refl)
  | inr (v, e) ↦ elim (Option-cases (last_job v.id t)) [
    | inl f ↦
        never_queued (last_seen-IsLastSeen pkg.id t v e) (λ j m own. last_job-none v.id t j f m own)
          (rw (e, f) refl)
    | inr (j, f) ↦
        last_status (last_seen-IsLastSeen pkg.id t v e) (last_job-IsLastJob v.id t j f)
          (rw (e, f) refl)
  ]
]

-- The name of the first package of the list does not come before that of the package.
abbrev pub IsFollowed : (Text → Text → Bool) → ManagedPackage → List ManagedPackage → Type 0
IsFollowed before p [] = Unit
IsFollowed before p (q ∷ qs) = before q.name p.name ≡ false

-- No package has a name that comes before that of the one in front of it.
abbrev pub IsOrdered : (Text → Text → Bool) → List ManagedPackage → Type 0
IsOrdered before [] = Unit
IsOrdered before (p ∷ ps) = IsFollowed before p ps × IsOrdered before ps

insert_by_name-Perm :
    (before : Text → Text → Bool) (p : ManagedPackage) (qs : List ManagedPackage)
    → Permᴰ (insert_by_name before p qs) (p ∷ qs)
unfolding insert_by_name
insert_by_name-Perm before p [] = Permᴰ.refl (p ∷ [])
insert_by_name-Perm before p (q ∷ qs) = elim (Bool-cases (before q.name p.name)) [
  | inl e ↦
      rw e (Permᴰ.trans (Permᴰ.cons refl (insert_by_name-Perm before p qs)) (Permᴰ.swap refl refl))
  | inr e ↦ rw e (Permᴰ.refl (p ∷ q ∷ qs))
]

pub by_name-Perm :
    (before : Text → Text → Bool) (ps : List ManagedPackage) → Permᴰ (by_name before ps) ps
unfolding by_name
by_name-Perm before [] = Permᴰ.nil
by_name-Perm before (p ∷ ps) =
    Permᴰ.trans (insert_by_name-Perm before p (by_name before ps))
      (Permᴰ.cons refl (by_name-Perm before ps))

module _ (before : Text → Text → Bool)
    (asym : (a b : Text) → before a b ≡ true → before b a ≡ false) where
  insert_by_name-IsFollowed :
      (q p : ManagedPackage) (qs : List ManagedPackage)
      → before q.name p.name ≡ true
      → IsFollowed before q qs
      → IsFollowed before q (insert_by_name before p qs)
  unfolding insert_by_name
  insert_by_name-IsFollowed q p [] e h = asym q.name p.name e
  insert_by_name-IsFollowed q p (r ∷ rs) e h = elim (Bool-cases (before r.name p.name)) [
    | inl g ↦ rw g h
    | inr g ↦ rw g (asym q.name p.name e)
  ]

  insert_by_name-IsOrdered :
      (p : ManagedPackage) (qs : List ManagedPackage)
      → IsOrdered before qs
      → IsOrdered before (insert_by_name before p qs)
  unfolding insert_by_name
  insert_by_name-IsOrdered p [] h = (tt, tt)
  insert_by_name-IsOrdered p (q ∷ qs) (f, h) = elim (Bool-cases (before q.name p.name)) [
    | inl e ↦ rw e (insert_by_name-IsFollowed q p qs e f, insert_by_name-IsOrdered p qs h)
    | inr e ↦ rw e (e, (f, h))
  ]

  pub by_name-IsOrdered : (ps : List ManagedPackage) → IsOrdered before (by_name before ps)
  unfolding by_name
  by_name-IsOrdered [] = tt
  by_name-IsOrdered (p ∷ ps) = insert_by_name-IsOrdered p (by_name before ps) (by_name-IsOrdered ps)

-- The lines say one package each, in the order of the packages.
abbrev pub AreLines : Tables → List ManagedPackage → List Text → Type 0
AreLines t [] [] = Unit
AreLines t [] (_ ∷ _) = ⊥
AreLines t (_ ∷ _) [] = ⊥
AreLines t (pkg ∷ pkgs) (line ∷ lines) = IsLine t pkg line × AreLines t pkgs lines

lines-AreLines :
    (t : Tables) (pkgs : List ManagedPackage) → AreLines t pkgs (map (package_line t) pkgs)
lines-AreLines t [] = tt
lines-AreLines t (pkg ∷ pkgs) = (package_line-IsLine t pkg, lines-AreLines t pkgs)

-- What is listed: every package once, in the order of their names, with a line for each.
pub record IsListing (before : Text → Text → Bool) (t : Tables) (lines : List Text) : Type 0 where
  pub packages : List ManagedPackage
  pub all_packages : Permᴰ packages t.packages
  pub ordered : IsOrdered before packages
  pub said : AreLines t packages lines

-- Where names are compared by an order that is strict, the lines of ListPackages are those of all
-- packages, each once and in the order of their names, and each says the name, the kind of the
-- source and the status of the job with the greatest id of a version that was seen last, or that
-- the package is new, where it has no version or that version no job. No table changes.
pub list_packages-IsListing :
    (env : Env) (before : Text → Text → Bool)
    → ((a b : Text) → before a b ≡ true → before b a ≡ false)
    → (s : Session)
    → Ensures
        (list_packages env before)
        s
        (λ lines t. IsListing before s.committed lines × (t.committed ≡ s.committed))
        (λ t. t.committed ≡ s.committed)
list_packages-IsListing env before asym s =
    let base = s.committed in
    let pkgs = by_name before base.packages in
    Ensures-weaken _ s _ _ (list_packages-map env before s) λ lines t (l, same). (
      record {
        packages = pkgs;
        all_packages = by_name-Perm before base.packages;
        ordered = by_name-IsOrdered before asym base.packages;
        said = subst (AreLines base pkgs) (sym l) (lines-AreLines base pkgs);
      },
      same,
    )
