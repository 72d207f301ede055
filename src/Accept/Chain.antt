-- ===== src/Accept/Chain.antt =====
-- AcceptAUR and AcceptLocal of internal/import.go, one after the other: what the scheduler and the
-- command line do to the tables.
use aurforge.Common.{
  ℕ, Text, Bool, false, List, [], ◌∷◌, ◌++◌, ◌≡◌, ◌⊎◌, inl, inr, refl, sym, ◌∙◌, ap, subst, Memᴰ,
  update, mem-append, mem-update-cases, if◌then◌else◌,
}
use aurforge.Store.{Tables, Job, PackageVersion, Instant, pending, skipped, is_pending}
use aurforge.Package.{PackageInfo}
use aurforge.Queue.{mark_superseded}
use aurforge.Registry.{is_waiting_for}
use aurforge.Registry.Registered.{Registered, already_known, newly_queued}
use aurforge.Accept.Imports.{Enters}

-- Any number of imports, each of them whole. The relation says which package, revision and time an
-- import may have at the tables that it begins with.
pub data Imports (Allowed : Tables → PackageInfo → Text → Instant → Type 0) (before : Tables)
    : Tables → Type 0 where
  no_import : Imports Allowed before before
  and_import :
      {between after : Tables} {pkg : PackageInfo} {revision digest : Text} {eligible_at : Instant}
      {id : ℕ}
      → Imports Allowed before between
      → Allowed between pkg revision eligible_at
      → Enters between pkg revision digest eligible_at id after
      → Imports Allowed before after

-- No job but those that wait has changed, no version and no artifact is lost, and a job that was
-- not there before waits or was skipped.
pub record KeepsHistory (before after : Tables) : Type 0 where
  pub jobs : (j : Job) → Memᴰ j before.jobs → is_pending j.status ≡ false → Memᴰ j after.jobs
  pub others :
      (j : Job)
      → Memᴰ j after.jobs
      → Memᴰ j before.jobs ⊎ (j.status ≡ pending) ⊎ (j.status ≡ skipped)
  pub versions : (v : PackageVersion) → Memᴰ v before.versions → Memᴰ v after.versions
  pub artifacts : after.artifacts ≡ before.artifacts

pub KeepsHistory-refl : (t : Tables) → KeepsHistory t t
KeepsHistory-refl t = record {
  jobs = λ j m p. m;
  others = λ j m. inl m;
  versions = λ v m. m;
  artifacts = refl;
}

pub KeepsHistory-trans : {a b c : Tables} → KeepsHistory a b → KeepsHistory b c → KeepsHistory a c
KeepsHistory-trans {a} {b} {c} f g = record {
  jobs = λ j m p. g.jobs j (f.jobs j m p) p;
  others = λ j m. elim (g.others j m) [ inl n ↦ f.others j n | inr h ↦ inr h ];
  versions = λ v m. g.versions v (f.versions v m);
  artifacts = g.artifacts ∙ f.artifacts;
}

mem-prefix {ℓ} : {A : Type ℓ} {x : A} (xs ys : List A) → Memᴰ x xs → Memᴰ x (xs ++ ys)
mem-prefix [] ys m = elim m [ ]
mem-prefix (z ∷ zs) ys (Memᴰ.head e) = Memᴰ.head e
mem-prefix (z ∷ zs) ys (Memᴰ.tail m) = Memᴰ.tail (mem-prefix zs ys m)

-- A row at which the test fails is left alone.
mem-update-other {ℓ} :
    {A : Type ℓ} (p : A → Bool) (f : A → A) {x : A} (xs : List A)
    → p x ≡ false
    → Memᴰ x xs
    → Memᴰ x (update p f xs)
mem-update-other p f [] h m = elim m [ ]
mem-update-other p f (y ∷ ys) h (Memᴰ.head e) =
    Memᴰ.head (e ∙ ap (λ b. if b then f y else y) (sym (ap p (sym e) ∙ h)))
mem-update-other p f (y ∷ ys) h (Memᴰ.tail m) = Memᴰ.tail (mem-update-other p f ys h m)

not_waiting : (ids : List ℕ) (j : Job) → is_pending j.status ≡ false → is_waiting_for ids j ≡ false
unfolding is_waiting_for
not_waiting ids j h = rw h refl

only {ℓ} : {A : Type ℓ} {x y : A} → Memᴰ x (y ∷ []) → x ≡ y
only (Memᴰ.head q) = q
only (Memᴰ.tail m) = elim m [ ]

-- The jobs of a table in which those that waited for some versions are skipped and one is new.
module _ (ids : List ℕ) (time : Instant) (old after : List Job) (new : Job)
    (queued : after ≡ update (is_waiting_for ids) (mark_superseded time) old ++ new ∷ []) where
  queued-kept : (j : Job) → Memᴰ j old → is_pending j.status ≡ false → Memᴰ j after
  queued-kept j m p = subst (Memᴰ j) (sym queued) (
      mem-prefix (update (is_waiting_for ids) (mark_superseded time) old) (new ∷ [])
        (mem-update-other (is_waiting_for ids) (mark_superseded time) old (not_waiting ids j p) m))

  left_or_skipped :
      (j : Job)
      → Memᴰ j (update (is_waiting_for ids) (mark_superseded time) old)
      → Memᴰ j old ⊎ (j.status ≡ skipped)
  left_or_skipped j m =
      let (y, n, c) = mem-update-cases (is_waiting_for ids) (mark_superseded time) old m in
      elim c [
        | inl (h, q) ↦ inr (ap (λ (x : Job). x.status) q)
        | inr (h, q) ↦ inl (subst (λ x. Memᴰ x old) (sym q) n)
      ]

  queued-cases :
      (j : Job) → Memᴰ j after → Memᴰ j old ⊎ (j.status ≡ new.status) ⊎ (j.status ≡ skipped)
  queued-cases j m =
      elim (mem-append (update (is_waiting_for ids) (mark_superseded time) old) (new ∷ [])
        (subst (Memᴰ j) queued m)) [
          | inl before ↦ elim (left_or_skipped j before) [ inl n ↦ inl n | inr q ↦ inr (inr q) ]
          | inr last ↦ inr (inl (ap (λ (x : Job). x.status) (only last)))
        ]

pub Registered-KeepsHistory :
    {before after : Tables} {pkg : PackageInfo} {revision digest : Text} {eligible_at : Instant}
    {package_id id : ℕ}
    → Registered before pkg revision digest eligible_at package_id after id
    → KeepsHistory before after
Registered-KeepsHistory {before} {after} (already_known v same m p r) = record {
  jobs = λ j n q. subst (Memᴰ j) (sym same.jobs) n;
  others = λ j n. inl (subst (Memᴰ j) same.jobs n);
  versions = λ w n. subst (Memᴰ w) (sym same.versions) n;
  artifacts = same.artifacts;
}
Registered-KeepsHistory {before} {after}
      (newly_queued id job_id seen skip_time created vs js as_before unknown) =
    record {
      jobs = queued-kept _ skip_time before.jobs after.jobs _ js;
      others = queued-cases _ skip_time before.jobs after.jobs _ js;
      versions = λ v m. subst (Memᴰ v) (sym vs) (mem-prefix before.versions _ m);
      artifacts = as_before;
    }

pub Imports-KeepsHistory :
    {Allowed : Tables → PackageInfo → Text → Instant → Type 0} {before after : Tables}
    → Imports Allowed before after
    → KeepsHistory before after
Imports-KeepsHistory {before = before} no_import = KeepsHistory-refl before
Imports-KeepsHistory (and_import i a e) =
    KeepsHistory-trans (Imports-KeepsHistory i) (Registered-KeepsHistory e.registered)
