-- ===== src/Queue/Marking.antt =====
-- MarkJob of internal/db.go: the row of the job at the end of its build or of its publication.
use aurforge.Common.{ℕ, Text, ◌≡◌, ◌∙◌, sym, ap, refl}
use aurforge.Store.{Tables, Instant, Status}
use aurforge.Session.{ok, Env, Session, now}
use aurforge.Session.Ensures.{Ensures, Ensures-bind, Ensures-client_execute, Ensures-weaken-failure}
use aurforge.Queue.{update_job, mark_row, mark_job}

-- The job is marked at some time.
abbrev pub Marked : ℕ → Status → Text → Text → Tables → Tables → Type 0
Marked id status log_path failure before after =
    (time : Instant) × (update_job id (mark_row time status log_path failure) before ≡ ok after)

module _ (env : Env) (id : ℕ) (status : Status) (log_path failure : Text) where
  now_lem :
      {F : Session → Type 0} (s : Session)
      → Ensures (now env) s (λ _ t. t.committed ≡ s.committed) F
  unfolding now
  now_lem s = record { success = λ a h. refl; failure = λ e h. cc }

  -- An error leaves the tables as they were.
  pub mark_job_lem :
      (s : Session)
      → Ensures
          (mark_job env id status log_path failure)
          s
          (λ _ t. Marked id status log_path failure s.committed t.committed)
          (λ t. t.committed ≡ s.committed)
  unfolding mark_job
  mark_job_lem s = Ensures-bind (now env) _ s _ _ (now_lem s) λ time s₁ c₁.
      Ensures-weaken-failure _ s₁
        (Ensures-client_execute env s₁ (update_job id (mark_row time status log_path failure)))
        (λ _ q. (time, ap (update_job id (mark_row time status log_path failure)) (sym c₁) ∙ q))
        (λ q. q ∙ c₁)
