-- ===== src/Package/Srcinfo/Complete.antt =====
-- ParsePackage of internal/package.go: what a package that it accepts has.
use aurforge.Common.{
  ℕ, some_inj, Text, codes, text_eq, text_eq_iff, Bool, true, false, ◌||◌, List, [], ◌∷◌, Option,
  none, some, if◌then◌else◌, All, All-append, Distinct, Distinct-snoc, ◌≡◌, ◌≢◌, refl, sym, ◌∙◌,
  subst, Bool-cases, inl, inr, split, cut, trim_space, false≢true,
}
use aurforge.Package.{PackageInfo, Requirement}
use aurforge.Package.Srcinfo.{
  Parsing, is_seen, require_name, set_base, srcinfo_field, srcinfo_cut, srcinfo_lines,
  parse_srcinfo, pkgbuild_field, pkgbuild_fields, parse_pkgbuild, require_all, complete,
  complete_named, or_default, or_single, parse_package, empty_info, dep_name, warn, add_requirement,
}

-- No requirement is named twice or has an empty name, and `seen` has the names.
pub record IsTidy (p : Parsing) : Type 0 where
  pub fresh :
      (name : Text)
      → is_seen name p.seen ≡ false
      → All (λ (d : Requirement). d.name ≢ name) p.info.dependencies
  pub distinct : Distinct (λ (d : Requirement). d.name) p.info.dependencies
  pub named : All (λ (d : Requirement). d.name ≢ []) p.info.dependencies

or_false : (a b : Bool) → (a || b) ≡ false → (a ≡ false) × (b ≡ false)
or_false true b h = cc
or_false false b h = (refl, h)

text_ne : (s t : Text) → text_eq s t ≡ false → s ≢ t
text_ne s t h e = false≢true (sym h ∙ (text_eq_iff s t).1 e)

add_requirement-IsTidy :
    (c : ℕ) (name : Text) (p : Parsing)
    → is_seen (c ∷ name) p.seen ≡ false
    → IsTidy p
    → IsTidy (add_requirement (c ∷ name) p)
add_requirement-IsTidy c name p e t =
    let d : Requirement = record { name = c ∷ name; aur = false } in
    record {
      fresh = λ n h.
          let (new, old) = or_false (text_eq (c ∷ name) n) (is_seen n p.seen) h in
          All-append (λ (r : Requirement). r.name ≢ n) p.info.dependencies (d ∷ []) (t.fresh n old)
            (text_ne (c ∷ name) n new, tt);
      distinct =
          Distinct-snoc (λ (r : Requirement). r.name) p.info.dependencies d (t.fresh (c ∷ name) e)
            t.distinct;
      named =
          All-append (λ (r : Requirement). r.name ≢ []) p.info.dependencies (d ∷ []) t.named
            (λ q. cc, tt);
    }

require_name-IsTidy : (name : Text) (p : Parsing) → IsTidy p → IsTidy (require_name name p)
unfolding require_name
require_name-IsTidy [] p t = t
require_name-IsTidy (c ∷ name) p t = elim (Bool-cases (is_seen (c ∷ name) p.seen)) [
  | inl e ↦ subst (λ b. IsTidy (if b then p else add_requirement (c ∷ name) p)) (sym e) t
  | inr e ↦
      subst (λ b. IsTidy (if b then p else add_requirement (c ∷ name) p)) (sym e)
        (add_requirement-IsTidy c name p e t)
]

IsTidy-if : (b : Bool) (p q : Parsing) → IsTidy p → IsTidy q → IsTidy (if b then p else q)
IsTidy-if true p q hp hq = hp
IsTidy-if false p q hp hq = hq

set_base-IsTidy : (name value : Text) (p : Parsing) → IsTidy p → IsTidy (set_base name value p)
unfolding set_base
set_base-IsTidy [] value p t = record { fresh = t.fresh; distinct = t.distinct; named = t.named }
set_base-IsTidy (c ∷ s) value p t = t

srcinfo_field-IsTidy :
    (key value : Text) (p : Parsing) → IsTidy p → IsTidy (srcinfo_field key value p)
unfolding srcinfo_field
srcinfo_field-IsTidy key value p t =
    IsTidy-if (text_eq key (codes "pkgbase")) _ _ (set_base-IsTidy p.info.name value p t) (
      IsTidy-if (text_eq key (codes "pkgname")) _ _
        (record { fresh = t.fresh; distinct = t.distinct; named = t.named })
        (IsTidy-if (text_eq key (codes "pkgver")) _ _
          (record { fresh = t.fresh; distinct = t.distinct; named = t.named })
          (IsTidy-if (text_eq key (codes "pkgrel")) _ _
            (record { fresh = t.fresh; distinct = t.distinct; named = t.named })
            (IsTidy-if (text_eq key (codes "depends") || text_eq key (codes "makedepends")) _ _
              (require_name-IsTidy (dep_name value) p t) t))))

srcinfo_lines-IsTidy : (lines : List Text) (p : Parsing) → IsTidy p → IsTidy (srcinfo_lines lines p)
unfolding srcinfo_lines
srcinfo_lines-IsTidy [] p t = t
srcinfo_lines-IsTidy (raw ∷ rest) p t =
    srcinfo_lines-IsTidy rest _ (cut_line (cut (codes " = ") (trim_space raw)))
  where
    cut_line : (o : Option (Text × Text)) → IsTidy (srcinfo_cut o p)
    cut_line none = t
    cut_line (some (key, value)) = srcinfo_field-IsTidy key value p t

require_all-IsTidy : (values : List Text) (p : Parsing) → IsTidy p → IsTidy (require_all values p)
require_all-IsTidy [] p t = t
require_all-IsTidy (v ∷ vs) p t =
    require_all-IsTidy vs (require_name (dep_name v) p) (require_name-IsTidy (dep_name v) p t)

pkgbuild_field-IsTidy :
    (key : Text) (values : List Text) (p : Parsing)
    → IsTidy p
    → IsTidy (pkgbuild_field key values p)
unfolding pkgbuild_field
pkgbuild_field-IsTidy key [] p t = t
pkgbuild_field-IsTidy key (v ∷ vs) p t =
    IsTidy-if (text_eq key (codes "pkgname")) _ _
      (record { fresh = t.fresh; distinct = t.distinct; named = t.named })
      (IsTidy-if (text_eq key (codes "pkgver")) _ _
        (record { fresh = t.fresh; distinct = t.distinct; named = t.named })
        (IsTidy-if (text_eq key (codes "pkgrel")) _ _
          (record { fresh = t.fresh; distinct = t.distinct; named = t.named })
          (IsTidy-if (text_eq key (codes "depends") || text_eq key (codes "makedepends")) _ _
            (require_all-IsTidy (v ∷ vs) p t) t)))

pkgbuild_fields-IsTidy :
    (fields : List (Text × List Text)) (p : Parsing) → IsTidy p → IsTidy (pkgbuild_fields fields p)
unfolding pkgbuild_fields
pkgbuild_fields-IsTidy [] p t = t
pkgbuild_fields-IsTidy ((key, values) ∷ rest) p t =
    pkgbuild_fields-IsTidy rest (pkgbuild_field key values p) (pkgbuild_field-IsTidy key values p t)

-- What every accepted package has.
pub record IsComplete (info : PackageInfo) : Type 0 where
  pub name : info.name ≢ []
  pub version : info.version ≢ []
  pub release : info.release ≢ []
  pub split_packages : info.split_packages ≢ []
  pub distinct_dependencies : Distinct (λ (d : Requirement). d.name) info.dependencies
  pub named_dependencies : All (λ (d : Requirement). d.name ≢ []) info.dependencies

empty_info-IsTidy : (kind ref : Text) → IsTidy (record { seen = []; info = empty_info kind ref })
empty_info-IsTidy kind ref = record { fresh = λ n h. tt; distinct = tt; named = tt }

or_default-ne-nil : (s : Text) (c : ℕ) (d : Text) → or_default s (c ∷ d) ≢ []
or_default-ne-nil [] c d = λ e. cc
or_default-ne-nil (x ∷ s) c d = λ e. cc

or_single-ne-nil : (l : List Text) (name : Text) → or_single l name ≢ []
or_single-ne-nil [] name = λ e. cc
or_single-ne-nil (p ∷ ps) name = λ e. cc

module _ (raw : PackageInfo) (d : Distinct (λ (r : Requirement). r.name) raw.dependencies)
    (n : All (λ (r : Requirement). r.name ≢ []) raw.dependencies) where
  complete_named-IsComplete :
      (name : Text)
      → name ≡ raw.name
      → (info : PackageInfo) → complete_named name raw ≡ some info
      → IsComplete info
  unfolding complete_named
  complete_named-IsComplete [] e info h = cc
  complete_named-IsComplete (c ∷ s) e info h = subst IsComplete (some_inj h) (record {
    name = λ q. cc;
    version = or_default-ne-nil raw.version _ _;
    release = or_default-ne-nil raw.release _ _;
    split_packages = or_single-ne-nil raw.split_packages raw.name;
    distinct_dependencies = d;
    named_dependencies = n;
  })

  complete-IsComplete : (info : PackageInfo) → complete raw ≡ some info → IsComplete info
  unfolding complete
  complete-IsComplete info h = complete_named-IsComplete raw.name refl info h

-- Whatever the files hold, a package that ParsePackage accepts has a name, a version, a release
-- and split packages, and names each of its dependencies once and none by the empty text.
pub parse_package-IsComplete :
    (assignments : Text → List (Text × List Text)) (has_pkgbuild : Bool)
    (srcinfo pkgbuild : Option Text) (kind ref : Text) (info : PackageInfo)
    → parse_package assignments has_pkgbuild srcinfo pkgbuild kind ref ≡ some info
    → IsComplete info
unfolding parse_package parse_srcinfo parse_pkgbuild
parse_package-IsComplete assignments false srcinfo pkgbuild kind ref info h = cc
parse_package-IsComplete assignments true (some text) pkgbuild kind ref info h =
    let t = srcinfo_lines-IsTidy (split 10 text) _ (empty_info-IsTidy kind ref) in
    complete-IsComplete (parse_srcinfo text (empty_info kind ref)) t.distinct t.named info h
parse_package-IsComplete assignments true none none kind ref info h = cc
parse_package-IsComplete assignments true none (some text) kind ref info h =
    let t = pkgbuild_fields-IsTidy (assignments text) _ (empty_info-IsTidy kind ref) in
    complete-IsComplete (warn (parse_pkgbuild assignments text (empty_info kind ref))) t.distinct
      t.named info h
