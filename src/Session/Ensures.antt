-- ===== src/Session/Ensures.antt =====
-- What an action leaves behind, on success and on failure, with one rule for each way to build
-- an action of the session.
use aurforge.Common.{◌∙◌, ℕ, ◌+◌, ◌⊎◌, ◌≡◌, refl, sym, subst, arith, Bool-cases, inl, inr}
use aurforge.Store.{Tables, Identities}
use aurforge.Session.{
  Error, driver, Result, ok, err, Env, Session, M, continue, ◌>>=◌, pure, raise, attempt, settle,
  or_rollback, now, begin, commit, query, client_query, execute, rollback, insert, Effect, perform,
  is_absent, client_execute, client_insert,
}

-- `Q` holds of a value returned and the session behind it, `E` of the session behind an error.
pub record Ensures {ℓ} {A : Type ℓ} (m : M A) (s : Session) (Q : A → Session → Type 0)
    (E : Session → Type 0) : Type ℓ where
  pub success : (a : A) → (m s).0 ≡ ok a → Q a (m s).1
  pub failure : (e : Error) → (m s).0 ≡ err e → E (m s).1

pub ok_injective {ℓ} : {A : Type ℓ} {a b : A} → ok a ≡ ok b → a ≡ b
ok_injective e = cc

module _ {ℓ κ} {A : Type ℓ} {B : Type κ} {E : Session → Type 0} where
  continue_lem :
      (r : Result A) (f : A → M B) (s : Session) {Q : A → Session → Type 0}
      (R : B → Session → Type 0)
      → ((a : A) → r ≡ ok a → Q a s)
      → ((e : Error) → r ≡ err e → E s)
      → ((a : A) (t : Session) → Q a t → Ensures (f a) t R E)
      → Ensures (continue r f) s R E
  continue_lem (ok a) f s R hq he hf = record {
    success = (hf a s (hq a refl)).success;
    failure = (hf a s (hq a refl)).failure;
  }
  continue_lem (err e) f s R hq he hf = record { success = λ a h. cc; failure = λ e' h. he e refl }

  pub Ensures-bind :
      (m : M A) (f : A → M B) (s : Session) (Q : A → Session → Type 0) (R : B → Session → Type 0)
      → Ensures m s Q E
      → ((a : A) (t : Session) → Q a t → Ensures (f a) t R E)
      → Ensures (m >>= f) s R E
  Ensures-bind m f s Q R hm hf =
      let h = continue_lem (m s).0 f (m s).1 {Q = Q} R hm.success hm.failure hf in
      record { success = h.success; failure = h.failure }

module _ {ℓ} {A : Type ℓ} {Q : A → Session → Type 0} {E : Session → Type 0} where
  pub Ensures-pure : (a : A) (s : Session) → Q a s → Ensures (pure a) s Q E
  Ensures-pure a s h = record {
    success = λ b e. subst (λ r. elim r [ ok x ↦ Q x s | err _ ↦ Unit ]) e h;
    failure = λ e h'. cc;
  }

  pub Ensures-raise : (e : Error) (s : Session) → E s → Ensures (raise {A = A} e) s Q E
  Ensures-raise e s h = record { success = λ b e'. cc; failure = λ e' h'. h }

module _ {ℓ} {A : Type ℓ} {E : Session → Type 0} where
  pub Ensures-weaken :
      (m : M A) (s : Session) (Q R : A → Session → Type 0)
      → Ensures m s Q E
      → ((a : A) (t : Session) → Q a t → R a t)
      → Ensures m s R E
  Ensures-weaken m s Q R h f = record {
    success = λ a e. f a (m s).1 (h.success a e);
    failure = h.failure;
  }

-- The calls of one transaction that began on the tables `base`: until the commit succeeds, the
-- committed tables are `base`, whatever fails.
module _ (env : Env) (base : Tables) where
  abbrev pub Untouched : Session → Type 0
  Untouched t = t.committed ≡ base

  -- The calls outside a transaction.
  pub Ensures-client_query :
      {A : Type 0} (s : Session)
      → s.committed ≡ base
      → (q : Tables → Result A)
      → Ensures (client_query env q) s (λ a t. (q base ≡ ok a) × (t.committed ≡ base)) Untouched
  unfolding client_query
  Ensures-client_query s h q = record {
    success = λ a e. ground arith;
    failure = λ e h'. ground arith;
  }

  pub Ensures-perform :
      (e : Effect) (s : Session)
      → Ensures (perform env e) s (λ _ t. t.committed ≡ s.committed) Untouched
  unfolding perform
  Ensures-perform e s = record { success = λ a h. refl; failure = λ e' h. cc }

  pub Ensures-is_absent :
      (s : Session) → Ensures (is_absent env) s (λ _ t. t.committed ≡ s.committed) Untouched
  unfolding is_absent
  Ensures-is_absent s = record { success = λ a h. refl; failure = λ e' h. cc }

  -- Inside the transaction, with `current` as the working tables.
  pub record Within (current : Tables) (t : Session) : Type 0 where
    pub untouched : t.committed ≡ base
    pub now_at : t.working ≡ current

  pub Ensures-begin :
      (s : Session)
      → s.committed ≡ base
      → Ensures (begin env) s (λ _ t. Within base t × (t.calls ≡ s.calls + 1)) Untouched
  unfolding begin
  Ensures-begin s h = record { success = λ a e. ground arith; failure = λ e h'. ground arith }

  module _ {current : Tables} (s : Session) (w : Within current s) where
    pub Ensures-now :
        Ensures (now env) s (λ time t. (time ≡ env.clock s.calls) × Within current t) Untouched
    unfolding now
    Ensures-now = record {
      success =
          λ a h. (sym (ok_injective h), record { untouched = w.untouched; now_at = w.now_at });
      failure = λ e h. cc;
    }

    pub Ensures-execute :
        (f : Tables → Result Tables)
        → Ensures
            (execute env f)
            s
            (λ _ t. (f current ≡ ok t.working) × (t.committed ≡ base))
            Untouched
    unfolding execute
    Ensures-execute f = record { success = λ a e. ground arith; failure = λ e h. ground arith }

    pub Ensures-commit : Ensures (commit env) s (λ _ t. t.committed ≡ current) Untouched
    unfolding commit
    Ensures-commit = record { success = λ a e. ground arith; failure = λ e h. ground arith }

    pub Ensures-query :
        {A : Type 0} (q : Tables → Result A)
        → Ensures (query env q) s (λ a t. (q current ≡ ok a) × Within current t) Untouched
    unfolding query
    Ensures-query q = record { success = λ a e. ground arith; failure = λ e h. ground arith }

  pub Ensures-insert :
      {A : Type 0} {current : Tables} (s : Session) (w : Within current s) (next : Identities → ℕ)
      (advance : Identities → Identities) (f : ℕ → Tables → Result (A × Tables))
      → Ensures
          (insert env next advance f)
          s
          (λ a t. (f (next s.identities) current ≡ ok (a, t.working)) × (t.committed ≡ base))
          Untouched
  unfolding insert
  Ensures-insert s w next advance f = record {
    success = λ a e. ground arith;
    failure = λ e h. ground arith;
  }

  pub Ensures-rollback :
      (s : Session) → s.committed ≡ base → Ensures rollback s (λ _. Untouched) Untouched
  Ensures-rollback s h = record { success = λ a e. h; failure = λ e h'. h }

  settle_lem :
      {A : Type 0} (r : Result A) (s : Session) {Q : A → Session → Type 0}
      → ((a : A) → r ≡ ok a → Q a s)
      → ((e : Error) → r ≡ err e → Untouched s)
      → Ensures (settle r) s Q Untouched
  settle_lem (ok a) s hq he = Ensures-pure a s (hq a refl)
  settle_lem (err e) s hq he = record { success = λ b h. cc; failure = λ e' h. he e refl }

  pub Ensures-or_rollback :
      {A : Type 0} (m : M A) (s : Session) {Q : A → Session → Type 0}
      → Ensures m s Q Untouched
      → Ensures (or_rollback m) s Q Untouched
  Ensures-or_rollback m s {Q} h =
      let k = settle_lem (m s).0 (m s).1 {Q = Q} h.success h.failure in
      record { success = k.success; failure = k.failure }

  -- A query whose error the code looks at: the error is the query's own or the driver's.
  pub Ensures-attempt-query :
      {A : Type 0} {current : Tables} (s : Session) (w : Within current s) (q : Tables → Result A)
      → Ensures
          (attempt (query env q))
          s
          (λ r t. ((r ≡ q current) ⊎ ((n : ℕ) × (r ≡ err (driver n)))) × Within current t)
          Untouched
  unfolding query
  Ensures-attempt-query s w q = record {
    success = λ a e. elim (Bool-cases (env.fails s.calls)) [
      | inl y ↦ (inr (s.calls, ground arith), ground arith)
      | inr n ↦ (inl (ground arith), ground arith)
    ];
    failure = λ e h. cc;
  }

-- The statements on the client: on failure the tables are as they were.
module _ (env : Env) (s : Session) where
  pub Ensures-client_execute :
      (f : Tables → Result Tables)
      → Ensures
          (client_execute env f)
          s
          (λ _ t. f s.committed ≡ ok t.committed)
          (λ t. t.committed ≡ s.committed)
  unfolding client_execute
  Ensures-client_execute f = record { success = λ a e. ground arith; failure = λ e h. ground arith }

  pub Ensures-client_insert :
      {A : Type 0} (next : Identities → ℕ) (advance : Identities → Identities)
      (f : ℕ → Tables → Result (A × Tables))
      → Ensures
          (client_insert env next advance f)
          s
          (λ a t. f (next s.identities) s.committed ≡ ok (a, t.committed))
          (λ t. t.committed ≡ s.committed)
  unfolding client_insert
  Ensures-client_insert next advance f = record {
    success = λ a e. ground arith;
    failure = λ e h. ground arith;
  }

pub Ensures-weaken-failure {ℓ} :
    {A : Type ℓ} {Q R : A → Session → Type 0} {E F : Session → Type 0} (m : M A) (s : Session)
    → Ensures m s Q E
    → ((a : A) → Q a (m s).1 → R a (m s).1)
    → (E (m s).1 → F (m s).1)
    → Ensures m s R F
Ensures-weaken-failure m s h f g = record {
  success = λ a e. f a (h.success a e);
  failure = λ e h'. g (h.failure e h');
}

module _ {A : Type 0} (m : M A) (s : Session) {Q : A → Session → Type 0}
    {E : Session → Type 0} where
  -- Either the value or the error is there to be looked at, with what is known of it.
  pub Ensures-attempt :
      {F : Session → Type 0}
      → Ensures m s Q E
      → Ensures
          (attempt m)
          s
          (λ r t. ((a : A) × (r ≡ ok a) × Q a t) ⊎ ((e : Error) × (r ≡ err e) × E t))
          F
  Ensures-attempt h = record {
    success = λ r q. elim (Result-cases (m s).0) [
      | inl (a, e) ↦ inl (a, sym (ok_injective q) ∙ e, h.success a e)
      | inr (x, e) ↦ inr (x, sym (ok_injective q) ∙ e, h.failure x e)
    ];
    failure = λ e q. cc;
  }
    where
      Result-cases : (r : Result A) → ((a : A) × (r ≡ ok a)) ⊎ ((e : Error) × (r ≡ err e))
      Result-cases (ok a) = inl (a, refl)
      Result-cases (err e) = inr (e, refl)

  -- The same, said of the action's own result, which is the one to be looked at.
  pub Ensures-attempted-at :
      {F : Session → Type 0}
      → Ensures m s Q E
      → Ensures
          (attempt m)
          s
          (λ r t.
            (r ≡ (m s).0)
            × (((a : A) × ((m s).0 ≡ ok a) × Q a t) ⊎ ((e : Error) × ((m s).0 ≡ err e) × E t)))
          F
  Ensures-attempted-at h = record {
    success = λ r q. (
      sym (ok_injective q),
      elim (either (m s).0) [
        | inl (a, e) ↦ inl (a, e, h.success a e)
        | inr (x, e) ↦ inr (x, e, h.failure x e)
      ],
    );
    failure = λ e q. cc;
  }
    where
      either : (r : Result A) → ((a : A) × (r ≡ ok a)) ⊎ ((e : Error) × (r ≡ err e))
      either (ok a) = inl (a, refl)
      either (err e) = inr (e, refl)

  -- For an error that the code drops.
  pub Ensures-attempted :
      {F : Session → Type 0}
      → Ensures m s Q E
      → Ensures
          (attempt m)
          s
          (λ _ t. ((a : A) × ((m s).0 ≡ ok a) × Q a t) ⊎ ((e : Error) × ((m s).0 ≡ err e) × E t))
          F
  Ensures-attempted {F} h =
      let k = Ensures-attempted-at {F = F} h in
      record { success = λ r q. (k.success r q).1; failure = k.failure }

-- The two halves put together: a property of the result, whatever it is, and of the session.
module _ {ℓ} {A : Type ℓ} {Q : A → Session → Type 0} {E : Session → Type 0} (m : M A) (s : Session)
    (P : Result A → Session → Type 0) where
  pub Ensures-out :
      Ensures m s Q E
      → ((a : A) → Q a (m s).1 → P (ok a) (m s).1)
      → ((e : Error) → E (m s).1 → P (err e) (m s).1)
      → P (m s).0 (m s).1
  Ensures-out h f g = out (m s).0 (λ a e. f a (h.success a e)) (λ x e. g x (h.failure x e))
    where
      out :
          (r : Result A)
          → ((a : A) → r ≡ ok a → P (ok a) (m s).1)
          → ((e : Error) → r ≡ err e → P (err e) (m s).1)
          → P r (m s).1
      out (ok a) hf hg = hf a refl
      out (err e) hf hg = hg e refl
