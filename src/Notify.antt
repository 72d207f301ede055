-- ===== src/Notify.antt =====
-- NotifyFailure of internal/roles.go: a notice of a failed build, which is sent only where the
-- configuration names a server and a topic, and whose own errors are dropped.
pub mod Quiet
use aurforge.Common.{Text, codes, List, [], ◌∷◌, ◌++◌}
use aurforge.Session.{Env, M, ◌>>=◌, ◌>>◌, pure, perform, post, ok, Session}
use aurforge.Config.{Config}

abbrev pub authorization : Text → List (Text × Text)
authorization [] = []
authorization (c ∷ token) = (codes "Authorization", codes "Bearer " ++ c ∷ token) ∷ []

abbrev pub headers : Text → List (Text × Text)
headers token =
    (codes "Title", codes "Aurforge build failed")
    ∷ (codes "Priority", codes "high")
    ∷ authorization token

abbrev pub notice : Text → Text → Text
notice subject failure = codes "Aurforge build failure for " ++ subject ++ 10 ∷ failure

module _ (env : Env) where
  pub notify_at : Text → Text → Text → Text → M (Unit {0})
  notify_at [] topic token body = pure tt
  notify_at (c ∷ url) [] token body = pure tt
  notify_at (c ∷ url) (d ∷ topic) token body = do
    perform env (post ((c ∷ url) ++ b'/' ∷ d ∷ topic) (headers token) body)
    pure tt

  unfoldable pub notify_failure : Config → Text → Text → M (Unit {0})
  unfolding notify_at
  notify_failure cfg subject failure =
      notify_at cfg.ntfy_url cfg.ntfy_topic cfg.ntfy_token (notice subject failure)
