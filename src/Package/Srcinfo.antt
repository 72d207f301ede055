-- ===== src/Package/Srcinfo.antt =====
-- depName, parseSRCINFO and ParsePackage of internal/package.go. The matches that the two regular
-- expressions find in a PKGBUILD, and what the reads of the files return, are arguments.
pub mod Names
pub mod Complete
use aurforge.Common.{
  Text, codes, text_eq, Bool, true, false, ◌||◌, List, [], ◌∷◌, ◌++◌, Option, none, some,
  if◌then◌else◌, any, cut, split, trim_space,
}
use aurforge.Package.{PackageInfo, Requirement}

abbrev pub markers : List Text
markers = codes ">=" ∷ codes "<=" ∷ codes "=" ∷ codes ">" ∷ codes "<" ∷ codes ":" ∷ []

abbrev pub before_or : Option (Text × Text) → Text → Text
before_or none rest = rest
before_or (some (before, _)) rest = before

-- The text before the first marker of the list that stands in it.
unfoldable pub before_marker : List Text → Text → Text
unfolding cut
before_marker [] value = value
before_marker (m ∷ ms) value = let rest = before_marker ms value in before_or (cut m value) rest

unfoldable pub dep_name : Text → Text
unfolding before_marker trim_space
dep_name value = trim_space (before_marker markers value)

-- The map `seen`, as the list of its keys, and the struct that is filled in.
pub record Parsing : Type 0 where
  pub seen : List Text
  pub info : PackageInfo

abbrev pub is_seen : Text → List Text → Bool
is_seen name = any (λ s. text_eq s name)

abbrev pub add_requirement : Text → Parsing → Parsing
add_requirement name p = record {
  seen = name ∷ p.seen;
  info = record p.info {
    dependencies = p.info.dependencies ++ record { name = name; aur = false } ∷ [];
  };
}

unfoldable pub require_name : Text → Parsing → Parsing
require_name [] p = p
require_name (c ∷ name) p = if is_seen (c ∷ name) p.seen then p else add_requirement (c ∷ name) p

unfoldable pub set_base : Text → Text → Parsing → Parsing
set_base [] value p = record p { info = record p.info { name = value } }
set_base (_ ∷ _) value p = p

-- The `switch` of parseSRCINFO.
unfoldable pub srcinfo_field : Text → Text → Parsing → Parsing
unfolding set_base dep_name require_name
srcinfo_field key value p =
    if text_eq key (codes "pkgbase")
    then set_base p.info.name value p
    else if text_eq key (codes "pkgname")
    then record p { info = record p.info { split_packages = p.info.split_packages ++ value ∷ [] } }
    else if text_eq key (codes "pkgver")
    then record p { info = record p.info { version = value } }
    else if text_eq key (codes "pkgrel")
    then record p { info = record p.info { release = value } }
    else if text_eq key (codes "depends") || text_eq key (codes "makedepends")
    then require_name (dep_name value) p
    else p

abbrev pub srcinfo_cut : Option (Text × Text) → Parsing → Parsing
srcinfo_cut none p = p
srcinfo_cut (some (key, value)) p = srcinfo_field key value p

unfoldable pub srcinfo_lines : List Text → Parsing → Parsing
unfolding srcinfo_field
srcinfo_lines [] p = p
srcinfo_lines (raw ∷ rest) p =
    srcinfo_lines rest (srcinfo_cut (cut (codes " = ") (trim_space raw)) p)

unfoldable pub parse_srcinfo : Text → PackageInfo → PackageInfo
unfolding srcinfo_lines
parse_srcinfo source info =
    (srcinfo_lines (split 10 source) (record { seen = []; info = info })).info

abbrev pub require_all : List Text → Parsing → Parsing
require_all [] p = p
require_all (value ∷ values) p = require_all values (require_name (dep_name value) p)

-- The `switch` of parsePKGBUILD, at the key and the words of one assignment.
unfoldable pub pkgbuild_field : Text → List Text → Parsing → Parsing
unfolding dep_name require_name
pkgbuild_field key [] p = p
pkgbuild_field key (value ∷ values) p =
    if text_eq key (codes "pkgname")
    then record p {
      info = record p.info {
        name = value;
        split_packages = p.info.split_packages ++ value ∷ values;
      };
    }
    else if text_eq key (codes "pkgver")
    then record p { info = record p.info { version = value } }
    else if text_eq key (codes "pkgrel")
    then record p { info = record p.info { release = value } }
    else if text_eq key (codes "depends") || text_eq key (codes "makedepends")
    then require_all (value ∷ values) p
    else p

unfoldable pub pkgbuild_fields : List (Text × List Text) → Parsing → Parsing
unfolding pkgbuild_field
pkgbuild_fields [] p = p
pkgbuild_fields ((key, values) ∷ rest) p = pkgbuild_fields rest (pkgbuild_field key values p)

unfoldable pub parse_pkgbuild : (Text → List (Text × List Text)) → Text → PackageInfo → PackageInfo
unfolding pkgbuild_fields
parse_pkgbuild assignments source info =
    (pkgbuild_fields (assignments source) (record { seen = []; info = info })).info

abbrev pub or_default : Text → Text → Text
or_default [] d = d
or_default (c ∷ s) d = c ∷ s

abbrev pub or_single : List Text → Text → List Text
or_single [] name = name ∷ []
or_single (p ∷ ps) name = p ∷ ps

abbrev pub empty_info : Text → Text → PackageInfo
empty_info kind ref = record {
  name = [];
  version = [];
  release = [];
  source_kind = kind;
  source_ref = ref;
  split_packages = [];
  dependencies = [];
  warnings = [];
}

abbrev pub no_srcinfo_warning : Text
no_srcinfo_warning = codes ".SRCINFO not found; preview used conservative static PKGBUILD parsing"

-- The defaults that ParsePackage puts in place of what it did not find.
unfoldable pub complete_named : Text → PackageInfo → Option PackageInfo
complete_named [] info = none
complete_named (_ ∷ _) info = some (record info {
  version = or_default info.version (codes "unknown");
  release = or_default info.release (codes "0");
  split_packages = or_single info.split_packages info.name;
})

unfoldable pub complete : PackageInfo → Option PackageInfo
unfolding complete_named
complete info = complete_named info.name info

abbrev pub warn : PackageInfo → PackageInfo
warn info = record info { warnings = info.warnings ++ no_srcinfo_warning ∷ [] }

-- Whether PKGBUILD is there, and what reading .SRCINFO and PKGBUILD returns (`none` is an error).
unfoldable pub parse_package :
    (Text → List (Text × List Text))
    → Bool
    → Option Text
    → Option Text
    → Text
    → Text
    → Option PackageInfo
unfolding parse_srcinfo parse_pkgbuild complete
parse_package assignments false srcinfo pkgbuild kind ref = none
parse_package assignments true (some srcinfo) pkgbuild kind ref =
    complete (parse_srcinfo srcinfo (empty_info kind ref))
parse_package assignments true none none kind ref = none
parse_package assignments true none (some pkgbuild) kind ref =
    complete (warn (parse_pkgbuild assignments pkgbuild (empty_info kind ref)))
