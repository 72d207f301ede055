-- ===== src/Controller.antt =====
-- RunController of internal/roles.go: the handlers of its server.
pub mod Answered
use aurforge.Common.{Bool, ℕ, Text, codes, text_eq, List, [], ◌∷◌, if◌then◌else◌}
use aurforge.Store.{ManagedPackage}
use aurforge.Session.{Error, Result, ok, err, Env, Session, M, ◌>>=◌, pure, attempt, client_query}
use aurforge.Listing.{list_packages}

-- The status of an answer with the error, or the lines, in its body.
pub data Response : Type 0 where
  no_content not_found_page : Response
  failure : ℕ → Error → Response
  lines_of : List Text → Response

-- Limit(1), All
abbrev pub first_package : List ManagedPackage → List ManagedPackage
first_package [] = []
first_package (p ∷ ps) = p ∷ []

abbrev pub health : Result (List ManagedPackage) → Response
health (ok found) = no_content
health (err e) = failure 503 e

abbrev pub listing : Result (List Text) → Response
listing (ok lines) = lines_of lines
listing (err e) = failure 500 e

module _ (env : Env) (before : Text → Text → Bool) where
  unfoldable pub healthz : M Response
  healthz = do
    found ← attempt (client_query env (λ t. ok (first_package t.packages)))
    pure (health found)

  unfoldable pub packages : M Response
  packages = do lines ← attempt (list_packages env before); pure (listing lines)

  -- The multiplexer with the two patterns.
  unfoldable pub serve : Text → M Response
  unfolding healthz packages text_eq
  serve path =
      if text_eq path (codes "/healthz")
      then healthz
      else if text_eq path (codes "/api/v1/packages")
      then packages
      else pure not_found_page
