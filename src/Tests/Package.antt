-- ===== src/Tests/Package.antt =====
-- Files of packages and their metadata are read.
use aurforge.Common.{
  Text, codes, text_eq, true, false, [], ◌∷◌, ◌++◌, none, some, ◌≡◌, refl, arith, Memᴰ, has_prefix,
  trim_space, cut, split,
}
use aurforge.Package.{PackageInfo}
use aurforge.Remove.ArtifactName.{package_name_from_artifact}
use aurforge.Remove.ArtifactName.Stem.{stem, package_name_from_artifact-stem}
use aurforge.Package.Srcinfo.{parse_package, dep_name}
use aurforge.Package.Srcinfo.Complete.{IsComplete, parse_package-IsComplete}
use aurforge.Package.Srcinfo.Names.{dep_name-operator}

-- A name with dashes, as in the test of remove.go.
package_name_from_artifact-stem_example :
    package_name_from_artifact (
      stem (codes "t3-code-bin") (codes "0.0.28") (codes "1") (codes "x86_64")
      ++ codes ".pkg.tar.zst")
    ≡ codes "t3-code-bin"
package_name_from_artifact-stem_example =
    package_name_from_artifact-stem b't' (codes "3-code-bin") (codes "0.0.28") (codes "1")
      (codes "x86_64") (codes ".pkg.tar.zst") (Memᴰ.head refl) (omega arith) (omega arith)
      (omega arith) (omega arith)

artifact_without_version : package_name_from_artifact (codes "bad.pkg.tar.zst") ≡ []
unfolding package_name_from_artifact
artifact_without_version = refl

dep_name-operator_example : dep_name (codes "helper" ++ (codes ">=" ++ codes "2")) ≡ codes "helper"
dep_name-operator_example =
    dep_name-operator (codes "helper") (codes "2") (omega arith) (omega arith) (omega arith)
      (omega arith) (omega arith) (omega arith) (codes ">=") (Memᴰ.head refl)
      (unfold trim_space in refl)

abbrev srcinfo_text : Text
srcinfo_text =
    codes "pkgbase = demo"
    ++ 10 ∷ codes "  pkgver = 1.2.3"
    ++ 10 ∷ codes "  makedepends = helper>=2"
    ++ 10 ∷ []

abbrev parsed_info : PackageInfo
parsed_info = record {
  name = codes "demo";
  version = codes "1.2.3";
  release = codes "0";
  source_kind = codes "local";
  source_ref = codes "demo";
  split_packages = codes "demo" ∷ [];
  dependencies = record { name = codes "helper"; aur = false } ∷ [];
  warnings = [];
}

parse_run :
    parse_package (λ t. []) true (some srcinfo_text) none (codes "local") (codes "demo")
    ≡ some parsed_info
unfolding parse_package trim_space cut has_prefix split text_eq
parse_run = refl

parse_package-IsComplete_example : IsComplete parsed_info
parse_package-IsComplete_example =
    parse_package-IsComplete (λ t. []) true (some srcinfo_text) none (codes "local") (codes "demo")
      parsed_info parse_run
