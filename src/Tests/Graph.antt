-- ===== src/Tests/Graph.antt =====
-- The graph of AUR dependencies at two packages that need each other.
use aurforge.Common.{
  Text, codes, text_eq, true, [], ◌∷◌, map, Option, none, some, ◌≡◌, refl, arith, Memᴰ, split,
  if◌then◌else◌, List, ◌++◌, some_inj,
}
use aurforge.Package.Srcinfo.{
  parse_package, dep_name, parse_srcinfo, srcinfo_lines, srcinfo_field, set_base, require_name,
  before_marker, complete, complete_named,
}
use aurforge.Import.{
  World, Checkout, Visit, Walk, AurNode, done, resolve_aur_graph, preview_aur, aur_package_exists,
  audit_package, audit, visit, visit_new, visit_each, preview_checkout, classify_dependencies,
  classify,
}
use aurforge.Import.Graph.First.{resolve_aur_graph-first}
use aurforge.Import.Graph.Unseen.{is_visited-mem}
use aurforge.Import.Graph.Visits.{ref}
use aurforge.Import.Graph.{IsResolved, resolve_aur_graph-IsResolved}

abbrev checkout_of : Text → Checkout
checkout_of srcinfo = record {
  has_pkgbuild = true;
  srcinfo = some srcinfo;
  pkgbuild = some (codes "sudo make");
  head = some (codes "abc ");
  digest = some (codes "00");
}

abbrev app_srcinfo : Text
app_srcinfo = codes "pkgbase = app" ++ 10 ∷ codes "depends = lib>=2" ++ 10 ∷ codes "depends = glibc"

abbrev lib_srcinfo : Text
lib_srcinfo = codes "pkgbase = lib" ++ 10 ∷ codes "makedepends = app"

abbrev pub two_packages : World
two_packages = record {
  cleared = λ name. true;
  clone = λ name.
      if text_eq name (codes "app")
      then some (checkout_of app_srcinfo)
      else if text_eq name (codes "lib")
      then some (checkout_of lib_srcinfo)
      else none;
  listed = λ asker dep. some (codes "app" ∷ codes "lib" ∷ []);
  assignments = λ source. [];
  root_path = λ name. name;
}

abbrev node_refs : Visit → Option (List Text)
node_refs (done w) = some (map ref w.nodes)
node_refs _ = none

two_packages_run :
    node_refs (resolve_aur_graph two_packages 3 (codes "app"))
    ≡ some (codes "app" ∷ codes "lib" ∷ [])
unfolding resolve_aur_graph visit visit_new visit_each preview_aur preview_checkout
    classify_dependencies classify aur_package_exists audit_package audit parse_package
    parse_srcinfo srcinfo_lines srcinfo_field set_base require_name dep_name before_marker complete
    complete_named text_eq split
two_packages_run = refl

two_packages_listed :
    (asker dep : Text)
    → aur_package_exists (two_packages.listed asker dep) dep ≡ some true
    → Memᴰ dep (codes "app" ∷ codes "lib" ∷ [])
unfolding aur_package_exists
two_packages_listed asker dep h = is_visited-mem dep (codes "app" ∷ codes "lib" ∷ []) (some_inj h)

resolve_aur_graph-IsResolved_example :
    IsResolved two_packages (codes "app") (resolve_aur_graph two_packages 3 (codes "app"))
resolve_aur_graph-IsResolved_example =
    resolve_aur_graph-IsResolved two_packages (codes "app" ∷ codes "lib" ∷ []) (codes "app") 3
      two_packages_listed (Memᴰ.head refl) (omega arith)

abbrev walk_of : Visit → Walk
walk_of (done w) = w
walk_of _ = record { visited = []; nodes = [] }

abbrev two_nodes : Walk
two_nodes = walk_of (resolve_aur_graph two_packages 3 (codes "app"))

two_packages_found : resolve_aur_graph two_packages 3 (codes "app") ≡ done two_nodes
unfolding resolve_aur_graph visit visit_new visit_each preview_aur preview_checkout
    classify_dependencies classify aur_package_exists audit_package audit parse_package
    parse_srcinfo srcinfo_lines srcinfo_field set_base require_name dep_name before_marker complete
    complete_named text_eq split
two_packages_found = refl

resolve_aur_graph-first_example :
    (node : AurNode) × (more : List AurNode) × (preview_aur two_packages (codes "app") ≡ some node)
    × (two_nodes.nodes ≡ node ∷ more)
resolve_aur_graph-first_example =
    resolve_aur_graph-first two_packages 3 (codes "app") two_nodes two_packages_found
