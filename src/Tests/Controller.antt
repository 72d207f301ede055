-- ===== src/Tests/Controller.antt =====
-- The server at the tables of one package whose job waits.
use aurforge.Common.{codes, text_eq, [], ◌∷◌, ◌≡◌, refl}
use aurforge.Session.{ok, client_query}
use aurforge.Session.Ensures.{Ensures}
use aurforge.Remove.Keys.{text_lt}
use aurforge.Listing.{list_packages, by_name, insert_by_name, last_seen, last_job}
use aurforge.Controller.{lines_of, not_found_page, serve, healthz, packages}
use aurforge.Tests.Worker.{reliable, starting}

shown_page :
    (serve reliable text_lt (codes "/api/v1/packages") starting).0
    ≡ ok (lines_of (codes "demo local pending" ∷ []))
unfolding serve healthz packages text_eq client_query list_packages by_name insert_by_name last_seen
    last_job text_lt
shown_page = refl

missing_page : (serve reliable text_lt (codes "/") starting).0 ≡ ok not_found_page
unfolding serve text_eq
missing_page = refl
