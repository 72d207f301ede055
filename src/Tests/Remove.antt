-- ===== src/Tests/Remove.antt =====
-- The package is removed.
use aurforge.Common.{codes, [], ◌∷◌, ◌≡◌}
use aurforge.Session.{Session}
use aurforge.Session.Ensures.{Ensures}
use aurforge.Remove.{Removal, remove_package}
use aurforge.Remove.Outcome.{IsRemoved, remove_package-IsRemoved}
use aurforge.Tests.Queue.{calm, two_revisions, connection}

abbrev demo_removal : Removal
demo_removal = record {
  name = codes "demo";
  source_kind = codes "aur";
  repo_packages = codes "demo" ∷ [];
  artifacts = [];
}

abbrev after_removal : Session
after_removal = (remove_package calm (codes "demo") connection).1

remove_package-IsRemoved_example :
    Ensures
      (remove_package calm (codes "demo"))
      connection
      (λ _ t. IsRemoved two_revisions t.committed (codes "demo"))
      (λ t. t.committed ≡ two_revisions)
remove_package-IsRemoved_example = remove_package-IsRemoved calm (codes "demo") connection
