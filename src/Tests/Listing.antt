-- ===== src/Tests/Listing.antt =====
-- A package whose one version has no job.
use aurforge.Common.{arith, Text, codes, false, true, [], ◌∷◌, ◌≡◌, refl}
use aurforge.Store.{Tables, local}
use aurforge.Session.{Env, Session, ok, client_query}
use aurforge.Session.Ensures.{Ensures}
use aurforge.Remove.Keys.{text_lt}
use aurforge.Listing.{list_packages, by_name, insert_by_name, last_seen, last_job}
use aurforge.Listing.Latest.{IsListing, list_packages-IsListing}

abbrev working : Env
working = record { fails = λ n. false; absent = λ n. false; clock = λ n. n }

abbrev one_package : Tables
one_package = record {
  packages =
      record {
        id = 1;
        name = codes "tool";
        source_kind = local;
        source_ref = codes "/imports/tool";
        source_path = codes "/data";
        enabled = true;
        created_at = 1;
        updated_at = 1;
      }
      ∷ [];
  versions = [];
  dependencies = [];
  jobs = [];
  artifacts = [];
}

abbrev reading : Session
reading = record {
  committed = one_package;
  working = one_package;
  identities = record {
    next_package = 2;
    next_version = 1;
    next_dependency = 1;
    next_job = 1;
    next_artifact = 1;
  };
  effects = [];
  calls = 0;
}

listed_lines : (list_packages working text_lt reading).0 ≡ ok (codes "tool local new" ∷ [])
unfolding list_packages by_name insert_by_name last_seen last_job client_query
listed_lines = refl

text_lt-asym : (a b : Text) → text_lt a b ≡ true → text_lt b a ≡ false
unfolding text_lt
text_lt-asym a [] h = cc
text_lt-asym [] (b ∷ t) h = refl
text_lt-asym (a ∷ s) (b ∷ t) h = ground (arith, text_lt-asym s t)

list_packages-IsListing_example :
    Ensures
      (list_packages working text_lt)
      reading
      (λ lines t. IsListing text_lt one_package lines × (t.committed ≡ one_package))
      (λ t. t.committed ≡ one_package)
list_packages-IsListing_example = list_packages-IsListing working text_lt text_lt-asym reading
