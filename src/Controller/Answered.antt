-- ===== src/Controller/Answered.antt =====
-- RunController of internal/roles.go: what a request is answered with.
use aurforge.Common.{Text, codes, Bool, true, false, List, ◌≡◌, ◌≢◌}
use aurforge.Session.{Error, driver, ok, err, Env, Session}
use aurforge.Session.Ensures.{Ensures}
use aurforge.Listing.{list_packages}
use aurforge.Controller.{Response, no_content, not_found_page, failure, lines_of}

-- The answers to a request for a path, which the outcome of the query behind it decides: the call
-- for the health succeeds or fails, and ListPackages returns its lines or an error.
pub data IsAnswer (env : Env) (before : Text → Text → Bool) (s : Session)
    : Text → Response → Type 0 where
  healthy : env.fails s.calls ≡ false → IsAnswer env before s (codes "/healthz") no_content
  unhealthy :
      env.fails s.calls ≡ true
      → IsAnswer env before s (codes "/healthz") (failure 503 (driver s.calls))
  shown :
      {lines : List Text}
      → (list_packages env before s).0 ≡ ok lines
      → IsAnswer env before s (codes "/api/v1/packages") (lines_of lines)
  not_shown :
      {e : Error}
      → (list_packages env before s).0 ≡ err e
      → IsAnswer env before s (codes "/api/v1/packages") (failure 500 e)
  no_page :
      {path : Text}
      → path ≢ codes "/healthz"
      → path ≢ codes "/api/v1/packages"
      → IsAnswer env before s path not_found_page

module _ (env : Env) (before : Text → Text → Bool) where
  abbrev Answers : Text → Session → Response → Session → Type 0
  Answers path s r t = IsAnswer env before s path r × (t.committed ≡ s.committed)
