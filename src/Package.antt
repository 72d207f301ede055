-- ===== src/Package.antt =====
-- internal/package.go: what is known of a package before it is built.
pub mod Srcinfo
use aurforge.Common.{Text, Bool, List}

-- The struct Dependency of package.go: a name, and whether the AUR has a package of that name.
pub record Requirement : Type 0 where
  pub name : Text
  pub aur : Bool

pub record PackageInfo : Type 0 where
  pub name : Text
  pub version : Text
  pub release : Text
  pub source_kind : Text
  pub source_ref : Text
  pub split_packages : List Text
  pub dependencies : List Requirement
  pub warnings : List Text
