-- ===== src/Publish/Published.antt =====
-- The loop of publishJob of internal/roles.go over the files that a worker left.
use aurforge.Common.{
  ℕ, Text, text_eq→eq, Bool, true, false, List, [], ◌∷◌, ◌++◌, map, Option, some, ◌≡◌, inl, inr,
  refl, sym, ◌∙◌, ap, subst, arith, Memᴰ, All, All-append, append-nil, append_assoc, mem-snoc,
  Bool-cases, false≢true, select, any,
}
use aurforge.Store.{Tables, Artifact, Instant}
use aurforge.Session.{
  Effect, Error, ok, Env, Session, now, perform, client_query, copy_to_repo, file_error,
}
use aurforge.Session.Ensures.{
  ok_injective, Ensures, Ensures-bind, Ensures-pure, Ensures-raise, Ensures-client_query,
  Ensures-client_insert, Ensures-weaken, Ensures-weaken-failure,
}
use aurforge.Config.{Config}
use aurforge.Publish.{
  Entry, is_package_file, is_artifact, insert_artifact, unless_failed, record_artifact,
  publish_file, publish_files,
}

-- The tables are those of before and artifacts of the job.
pub record Adds (id : ℕ) (before after : Tables) : Type 0 where
  pub new : List Artifact
  pub own : All (λ (a : Artifact). a.job_id ≡ id) new
  pub tables : after ≡ record before { artifacts = before.artifacts ++ new }

-- The job has an artifact of that file name.
abbrev pub IsRecorded : ℕ → Tables → Text → Type 0
IsRecorded id t name = (a : Artifact) × Memᴰ a t.artifacts × (a.job_id ≡ id) × (a.filename ≡ name)

mem-left : {x : Artifact} (xs ys : List Artifact) → Memᴰ x xs → Memᴰ x (xs ++ ys)
mem-left [] ys k = elim k [ ]
mem-left (z ∷ zs) ys (Memᴰ.head e) = Memᴰ.head e
mem-left (z ∷ zs) ys (Memᴰ.tail k) = Memᴰ.tail (mem-left zs ys k)

any-mem :
    (p : Artifact → Bool) (xs : List Artifact)
    → any p xs ≡ true
    → (x : Artifact) × Memᴰ x xs × (p x ≡ true)
any-mem p [] h = cc
any-mem p (x ∷ xs) h = elim (Bool-cases (p x)) [
  | inl e ↦ (x, Memᴰ.head refl, e)
  | inr e ↦ let (y, m, q) = any-mem p xs (ground arith) in (y, Memᴰ.tail m, q)
]

module _ (id : ℕ) where
  pub Adds-same : {before after : Tables} → after ≡ before → Adds id before after
  Adds-same {before} e = record {
    new = [];
    own = tt;
    tables = e ∙ ap (λ l. record before { artifacts = l }) (sym (append-nil before.artifacts));
  }

  pub Adds-trans : {a b c : Tables} → Adds id a b → Adds id b c → Adds id a c
  Adds-trans {a} {b} {c} x y = record {
    new = x.new ++ y.new;
    own = All-append (λ (r : Artifact). r.job_id ≡ id) x.new y.new x.own y.own;
    tables =
        y.tables
        ∙ ap (λ (t : Tables). record t { artifacts = t.artifacts ++ y.new }) x.tables
        ∙ ap (λ l. record a { artifacts = l }) (append_assoc a.artifacts x.new y.new);
  }

  pub Adds-mem :
      {a b : Tables} {r : Artifact} → Adds id a b → Memᴰ r a.artifacts → Memᴰ r b.artifacts
  Adds-mem {a} {b} {r} x m =
      subst (λ (t : Tables). Memᴰ r t.artifacts) (sym x.tables) (mem-left a.artifacts x.new m)

  Adds-IsRecorded :
      {a b : Tables} {name : Text} → Adds id a b → IsRecorded id a name → IsRecorded id b name
  Adds-IsRecorded x (r, m, j, f) = (r, Adds-mem x m, j, f)

  insert_artifact-Adds :
      (a : Artifact) (before after : Tables)
      → a.job_id ≡ id
      → insert_artifact a before ≡ ok (tt, after)
      → Adds id before after × IsRecorded id after a.filename
  unfolding insert_artifact
  insert_artifact-Adds a before after own h =
      let t : after ≡ record before { artifacts = before.artifacts ++ a ∷ [] } = ground arith in
      (
        record { new = a ∷ []; own = (own, tt); tables = t },
        (
          a,
          subst (λ (x : Tables). Memᴰ a x.artifacts) (sym t) (mem-snoc a before.artifacts),
          own,
          refl,
        ),
      )

module _ (env : Env) (cfg : Config) (staged : ℕ → Option (List Entry)) (error_text : Error → Text)
    (id : ℕ) (base : Tables) where
  abbrev pub Kept : Session → Type 0
  Kept t = Adds id base t.committed

  pub unless_failed_lem :
      (b : Bool) (s : Session)
      → Kept s
      → Ensures (unless_failed id b) s (λ _ t. t.committed ≡ s.committed) Kept
  unless_failed_lem true s h = Ensures-pure tt s refl
  unless_failed_lem false s h = Ensures-raise (file_error id) s h

  pub now_lem :
      {E : Session → Type 0} (s : Session)
      → Ensures (now env) s (λ _ t. t.committed ≡ s.committed) E
  unfolding now
  now_lem s = record { success = λ a h. refl; failure = λ e h. cc }

  pub perform_lem :
      {E : Session → Type 0} (x : Effect) (s : Session)
      → Ensures (perform env x) s (λ _ t. t.committed ≡ s.committed) E
  unfolding perform
  perform_lem x s = record { success = λ a h. refl; failure = λ e h. cc }

  pub moved : {a b : Tables} → Adds id base a → b ≡ a → Adds id base b
  moved h c = subst (Adds id base) (sym c) h

  record_artifact_lem :
      (e : Entry) (known : Bool) (s : Session)
      → Kept s
      → known ≡ any (is_artifact id e.name) s.committed.artifacts
      → Ensures
          (record_artifact env cfg staged error_text id e known)
          s
          (λ _ t. Adds id s.committed t.committed × IsRecorded id t.committed e.name)
          Kept
  unfolding record_artifact is_artifact
  record_artifact_lem e true s h k =
      let (a, m, q) = any-mem _ s.committed.artifacts (sym k) in
      Ensures-pure tt s
        (Adds-same id refl, (a, m, ground arith, text_eq→eq a.filename e.name (ground arith)))
  record_artifact_lem e false s h k =
      Ensures-bind (now env) _ s (λ _ t. t.committed ≡ s.committed) _ (now_lem s)
        λ time s₁ c₁.
          Ensures-weaken-failure _ s₁ (Ensures-client_insert env s₁ _ _ _)
            (λ _ q. inserted time _ s₁.committed _ c₁ q) (λ q. moved h (q ∙ c₁))
    where
      inserted :
          (time : Instant) (key : ℕ) (before after : Tables)
          → before ≡ s.committed
          → insert_artifact
              (record {
                id = key;
                job_id = id;
                filename = e.name;
                sha256 = e.sha256;
                size_bytes = e.size_bytes;
                published_at = some time;
              })
              before
            ≡ ok (tt, after)
          → Adds id s.committed after × IsRecorded id after e.name
      inserted time key before after c q =
          subst (λ x. Adds id x after × IsRecorded id after e.name) c
            (insert_artifact-Adds id _ before after refl q)

  publish_file_lem :
      (e : Entry) (s : Session)
      → Kept s
      → Ensures
          (publish_file env cfg staged error_text id e)
          s
          (λ _ t. Adds id s.committed t.committed × IsRecorded id t.committed e.name)
          Kept
  unfolding publish_file
  publish_file_lem e s h =
      let Goal = λ (_ : Unit {0}) (t : Session).
        Adds id s.committed t.committed × IsRecorded id t.committed e.name in
      Ensures-bind (perform env (copy_to_repo id e.name)) _ s (λ _ t. t.committed ≡ s.committed)
        Goal (perform_lem _ s)
        λ copied s₁ c₁.
          Ensures-bind (unless_failed id copied) _ s₁ (λ _ t. t.committed ≡ s₁.committed) Goal
            (unless_failed_lem copied s₁ (moved h c₁))
            λ _ s₂ c₂.
              Ensures-bind (client_query env (λ t. ok (any (is_artifact id e.name) t.artifacts)))
                (record_artifact env cfg staged error_text id e) s₂
                (λ known t.
                  (ok (any (is_artifact id e.name) s₂.committed.artifacts) ≡ ok known)
                  × (t.committed ≡ s₂.committed))
                Goal
                (Ensures-weaken-failure _ s₂ (Ensures-client_query env s₂.committed s₂ refl _)
                  (λ _ q. q) (λ q. moved h (q ∙ c₂ ∙ c₁)))
                λ known s₃ (k, c₃).
                  Ensures-weaken _ s₃ _ _
                    (record_artifact_lem e known s₃ (moved h (c₃ ∙ c₂ ∙ c₁))
                      (known_at known s₂ s₃ k c₃))
                    (λ _ t (x, y). (subst (λ b. Adds id b t.committed) (c₃ ∙ c₂ ∙ c₁) x, y))
    where
      known_at :
          (known : Bool) (a b : Session)
          → ok (any (is_artifact id e.name) a.committed.artifacts) ≡ ok known
          → b.committed ≡ a.committed
          → known ≡ any (is_artifact id e.name) b.committed.artifacts
      known_at known a b k c =
          sym (ok_injective k)
          ∙ ap (λ (t : Tables). any (is_artifact id e.name) t.artifacts) (sym c)

  -- The whole loop: its value names the package files, and each of them is recorded.
  pub publish_files_lem :
      (es : List Entry) (s : Session)
      → Kept s
      → Ensures
          (publish_files env cfg staged error_text id es)
          s
          (λ files t.
            (Adds id s.committed t.committed)
            × (files ≡ map (λ (e : Entry). e.name) (select is_package_file es))
            × ((e : Entry)
                → Memᴰ e es
                → is_package_file e ≡ true
                → IsRecorded id t.committed e.name))
          Kept
  unfolding publish_files
  publish_files_lem [] s h = Ensures-pure [] s (Adds-same id refl, refl, λ e m. elim m [ ])
  publish_files_lem (e ∷ es) s h = elim (Bool-cases (is_package_file e)) [
    | inl p ↦
        rw (p, publish_files)
          (Ensures-bind (publish_file env cfg staged error_text id e) _ s _
            (λ files t.
              (Adds id s.committed t.committed)
              × (files ≡ e.name ∷ map (λ (e : Entry). e.name) (select is_package_file es))
              × ((d : Entry)
                  → Memᴰ d (e ∷ es)
                  → is_package_file d ≡ true
                  → IsRecorded id t.committed d.name))
            (publish_file_lem e s h)
            λ _ s₁ (a, r).
              Ensures-bind (publish_files env cfg staged error_text id es) _ s₁ _ _
                (publish_files_lem es s₁ (Adds-trans id h a))
                λ files s₂ (b, n, rs).
                  Ensures-pure (e.name ∷ files) s₂ (
                    Adds-trans id a b,
                    ap (λ l. e.name ∷ l) n,
                    both s₂ (Adds-IsRecorded id b r) rs,
                  ))
    | inr p ↦
        rw (p, publish_files)
          (Ensures-weaken _ s _ _ (publish_files_lem es s h)
            λ files t (a, n, rs). (a, n, others t p rs))
  ]
    where
      both :
          (t : Session)
          → IsRecorded id t.committed e.name
          → ((d : Entry) → Memᴰ d es → is_package_file d ≡ true → IsRecorded id t.committed d.name)
          → (d : Entry) → Memᴰ d (e ∷ es)
          → is_package_file d ≡ true
          → IsRecorded id t.committed d.name
      both t r rs d (Memᴰ.head q) on =
          subst (λ (x : Entry). IsRecorded id t.committed x.name) (sym q) r
      both t r rs d (Memᴰ.tail m) on = rs d m on

      others :
          (t : Session)
          → is_package_file e ≡ false
          → ((d : Entry) → Memᴰ d es → is_package_file d ≡ true → IsRecorded id t.committed d.name)
          → (d : Entry) → Memᴰ d (e ∷ es)
          → is_package_file d ≡ true
          → IsRecorded id t.committed d.name
      others t p rs d (Memᴰ.head q) on =
          absurd (false≢true (sym p ∙ sym (ap is_package_file q) ∙ on))
      others t p rs d (Memᴰ.tail m) on = rs d m on
