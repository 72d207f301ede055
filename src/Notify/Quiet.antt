-- ===== src/Notify/Quiet.antt =====
-- NotifyFailure of internal/roles.go leaves the database alone.
use aurforge.Common.{Text, [], ◌∷◌, ◌≡◌, refl}
use aurforge.Session.{Env, Session, perform}
use aurforge.Session.Ensures.{Ensures, Ensures-pure}
use aurforge.Config.{Config}
use aurforge.Notify.{notice, notify_at, notify_failure}

module _ (env : Env) {F : Session → Type 0} where
  notify_at_lem :
      (url topic token body : Text) (s : Session)
      → Ensures (notify_at env url topic token body) s (λ _ t. t.committed ≡ s.committed) F
  unfolding notify_at perform
  notify_at_lem [] topic token body s = Ensures-pure tt s refl
  notify_at_lem (c ∷ url) [] token body s = Ensures-pure tt s refl
  notify_at_lem (c ∷ url) (d ∷ topic) token body s = record {
    success = λ a e. refl;
    failure = λ e h. cc;
  }

  pub notify_failure_lem :
      (cfg : Config) (subject failure : Text) (s : Session)
      → Ensures (notify_failure env cfg subject failure) s (λ _ t. t.committed ≡ s.committed) F
  unfolding notify_failure
  notify_failure_lem cfg subject failure s =
      notify_at_lem cfg.ntfy_url cfg.ntfy_topic cfg.ntfy_token (notice subject failure) s
