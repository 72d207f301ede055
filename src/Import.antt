-- ===== src/Import.antt =====
-- internal/import.go: previews of AUR packages, the graph of their dependencies and the question
-- to the operator; AuditPackage of internal/package.go.
pub mod Refs
pub mod Graph
pub mod Local
use aurforge.Common.{
  and_then, ℕ, zero, suc, Text, codes, text_eq, Bool, true, false, ◌||◌, List, [], ◌∷◌, ◌++◌,
  Option, none, some, if◌then◌else◌, any, contains, trim_space, map, ◌-◌, ◌+◌, ◌&&◌, leb,
}
use aurforge.Package.{PackageInfo, Requirement}
use aurforge.Package.Srcinfo.{parse_package}

-- AuditPackage: the rules, and the messages of those whose needle stands in the PKGBUILD.
abbrev pub audit_rules : List (Text × Text)
audit_rules =
    (codes "SKIP", codes "checksum verification is skipped")
    ∷ (codes "sudo", codes "PKGBUILD invokes sudo")
    ∷ (codes "/var/run/docker.sock", codes "PKGBUILD references the Docker socket")
    ∷ (codes "--privileged", codes "PKGBUILD references privileged containers")
    ∷ []

unfoldable pub audit : List (Text × Text) → Text → List Text
audit [] content = []
audit ((needle, message) ∷ rules) content =
    let rest = audit rules content in if contains needle content then message ∷ rest else rest

unfoldable pub audit_package : Option Text → Option (List Text)
unfolding audit
audit_package none = none
audit_package (some content) = some (audit audit_rules content)

pub record Preview : Type 0 where
  pub info : PackageInfo
  pub digest : Text
  pub path : Text
  pub audit_messages : List Text

pub record AurNode : Type 0 where
  pub preview : Preview
  pub revision : Text

-- What a clone of a package's repository holds: whether there is a PKGBUILD, what reading
-- .SRCINFO and PKGBUILD returns, what git prints of HEAD, and what HashTree returns.
pub record Checkout : Type 0 where
  pub has_pkgbuild : Bool
  pub srcinfo : Option Text
  pub pkgbuild : Option Text
  pub head : Option Text
  pub digest : Option Text

-- What the program finds outside: whether the directory of the preview of a package can be made
-- anew, what git clones, the names that the AUR lists where the preview of a package asks for a
-- dependency (`none` is an error), and the matches of the regular expressions in a PKGBUILD.
pub record World : Type 0 where
  pub cleared : Text → Bool
  pub clone : Text → Option Checkout
  pub listed : Text → Text → Option (List Text)
  pub assignments : Text → List (Text × List Text)
  pub root_path : Text → Text

unfoldable pub aur_package_exists : Option (List Text) → Text → Option Bool
aur_package_exists none name = none
aur_package_exists (some results) name = some (any (λ item. text_eq item name) results)

-- classifyAURDependencies, with AURPackageExists as the argument.
unfoldable pub classify : (Text → Option Bool) → List Requirement → Option (List Requirement)
classify found [] = some []
classify found (dep ∷ deps) = and_then (found dep.name) (λ aur.
    and_then (classify found deps) (λ rest. some (record { name = dep.name; aur = aur } ∷ rest)))

module _ (world : World) where
  unfoldable pub classify_dependencies : Text → PackageInfo → Option PackageInfo
  unfolding classify aur_package_exists
  classify_dependencies asker info =
      and_then (classify (λ dep. aur_package_exists (world.listed asker dep) dep) info.dependencies)
        (λ deps. some (record info { dependencies = deps }))

  unfoldable pub preview_checkout : Text → Checkout → Option AurNode
  unfolding classify_dependencies audit_package trim_space
  preview_checkout name c = and_then c.head (λ head.
      and_then
        (parse_package world.assignments c.has_pkgbuild c.srcinfo c.pkgbuild (codes "aur") name)
        (λ parsed. and_then (classify_dependencies name parsed) (λ info.
          and_then c.digest (λ digest. and_then (audit_package c.pkgbuild) (λ messages.
            some (record {
              preview = record {
                info = info;
                digest = digest;
                path = world.root_path name;
                audit_messages = messages;
              };
              revision = trim_space head;
            }))))))

  unfoldable pub preview_aur : Text → Option AurNode
  unfolding preview_checkout
  preview_aur name =
      if world.cleared name then and_then (world.clone name) (preview_checkout name) else none

-- The variables of ResolveAURGraph that the closure `visit` shares.
pub record Walk : Type 0 where
  pub visited : List Text
  pub nodes : List AurNode

-- How a visit ends; `spent` means that the fuel ran out.
pub data Visit : Type 0 where
  spent failed : Visit
  done : Walk → Visit

abbrev pub is_visited : Text → List Text → Bool
is_visited name = any (λ v. text_eq v name)

abbrev pub and_visit : Visit → (Walk → Visit) → Visit
and_visit spent f = spent
and_visit failed f = failed
and_visit (done w) f = f w

-- The loop over the dependencies of a node.
unfoldable pub visit_each : (Text → Walk → Visit) → List Requirement → Walk → Visit
visit_each go [] w = done w
visit_each go (dep ∷ deps) w = elim dep.aur [
  | true ↦ and_visit (go dep.name w) (visit_each go deps)
  | false ↦ visit_each go deps w
]

abbrev pub append_node : Text → AurNode → Walk → Walk
append_node name node w = record { visited = w.visited ++ name ∷ []; nodes = w.nodes ++ node ∷ [] }

unfoldable pub visit_new : (Text → Walk → Visit) → Text → Option AurNode → Walk → Visit
unfolding visit_each
visit_new go name none w = failed
visit_new go name (some node) w =
    visit_each go node.preview.info.dependencies (append_node name node w)

module _ (world : World) where
  -- The closure `visit`, on fuel that bounds how deep it calls itself.
  unfoldable pub visit : ℕ → Text → Walk → Visit
  unfolding visit_new
  visit zero name w = spent
  visit (suc fuel) name w = elim (is_visited name w.visited) [
    | true ↦ done w
    | false ↦ visit_new (visit fuel) name (preview_aur world name) w
  ]

  unfoldable pub resolve_aur_graph : ℕ → Text → Visit
  unfolding visit
  resolve_aur_graph fuel root = visit fuel root (record { visited = []; nodes = [] })
