-- ===== src/Import/Refs.antt =====
-- PreviewAUR keeps the name that it was asked for as the source reference of the package.
use aurforge.Common.{
  and_then, and_then-some, Text, codes, Bool, true, false, List, [], ◌∷◌, Option, none, some, ◌≡◌,
  refl, sym, ◌∙◌, ap, arith, some_inj, split, cut, trim_space, Memᴰ, subst,
}
use aurforge.Package.{PackageInfo, Requirement}
use aurforge.Import.{
  World, AurNode, Checkout, classify, classify_dependencies, aur_package_exists, preview_checkout,
  preview_aur, audit_package,
}
use aurforge.Package.Srcinfo.{
  Parsing, require_name, require_all, set_base, srcinfo_field, srcinfo_cut, srcinfo_lines, dep_name,
  parse_srcinfo, pkgbuild_field, pkgbuild_fields, parse_pkgbuild, complete, complete_named,
  parse_package,
}

require_name-ref :
    (name : Text) (p : Parsing) → (require_name name p).info.source_ref ≡ p.info.source_ref
unfolding require_name
require_name-ref [] p = refl
require_name-ref (c ∷ name) p = ground arith

set_base-ref :
    (held value : Text) (p : Parsing) → (set_base held value p).info.source_ref ≡ p.info.source_ref
unfolding set_base
set_base-ref [] value p = refl
set_base-ref (c ∷ held) value p = refl

require_all-ref :
    (values : List Text) (p : Parsing) → (require_all values p).info.source_ref ≡ p.info.source_ref
require_all-ref [] p = refl
require_all-ref (v ∷ vs) p = require_all-ref vs _ ∙ require_name-ref (dep_name v) p

srcinfo_field-ref :
    (key value : Text) (p : Parsing)
    → (srcinfo_field key value p).info.source_ref ≡ p.info.source_ref
unfolding srcinfo_field
srcinfo_field-ref key value p =
    ground (arith, set_base-ref p.info.name value p, require_name-ref (dep_name value) p)

srcinfo_cut-ref :
    (o : Option (Text × Text)) (p : Parsing) → (srcinfo_cut o p).info.source_ref ≡ p.info.source_ref
srcinfo_cut-ref none p = refl
srcinfo_cut-ref (some (key, value)) p = srcinfo_field-ref key value p

srcinfo_lines-ref :
    (lines : List Text) (p : Parsing) → (srcinfo_lines lines p).info.source_ref ≡ p.info.source_ref
unfolding srcinfo_lines
srcinfo_lines-ref [] p = refl
srcinfo_lines-ref (raw ∷ rest) p =
    srcinfo_lines-ref rest _ ∙ srcinfo_cut-ref (cut (codes " = ") (trim_space raw)) p

pkgbuild_field-ref :
    (key : Text) (values : List Text) (p : Parsing)
    → (pkgbuild_field key values p).info.source_ref ≡ p.info.source_ref
unfolding pkgbuild_field
pkgbuild_field-ref key [] p = refl
pkgbuild_field-ref key (v ∷ vs) p = ground (arith, require_all-ref (v ∷ vs) p)

pkgbuild_fields-ref :
    (fields : List (Text × List Text)) (p : Parsing)
    → (pkgbuild_fields fields p).info.source_ref ≡ p.info.source_ref
unfolding pkgbuild_fields
pkgbuild_fields-ref [] p = refl
pkgbuild_fields-ref ((key, values) ∷ rest) p =
    pkgbuild_fields-ref rest _ ∙ pkgbuild_field-ref key values p

complete-ref :
    (info result : PackageInfo) → complete info ≡ some result → result.source_ref ≡ info.source_ref
unfolding complete complete_named
complete-ref info result h = named info.name h
  where
    named :
        (name : Text) → complete_named name info ≡ some result → result.source_ref ≡ info.source_ref
    named [] e = cc
    named (c ∷ name) e = ap (λ (i : PackageInfo). i.source_ref) (sym (some_inj e))

pub parse_package-ref :
    (assignments : Text → List (Text × List Text)) (has_pkgbuild : Bool)
    (srcinfo pkgbuild : Option Text) (kind ref : Text) (info : PackageInfo)
    → parse_package assignments has_pkgbuild srcinfo pkgbuild kind ref ≡ some info
    → info.source_ref ≡ ref
unfolding parse_package parse_srcinfo parse_pkgbuild
parse_package-ref assignments false srcinfo pkgbuild kind ref info h = cc
parse_package-ref assignments true (some text) pkgbuild kind ref info h =
    complete-ref _ info h ∙ srcinfo_lines-ref (split 10 text) _
parse_package-ref assignments true none none kind ref info h = cc
parse_package-ref assignments true none (some text) kind ref info h =
    complete-ref _ info h ∙ pkgbuild_fields-ref (assignments text) _

-- Each dependency comes out with what was found of its name.
classify-mem :
    (found : Text → Option Bool) (deps out : List Requirement)
    → classify found deps ≡ some out
    → (d : Requirement) → Memᴰ d out
    → found d.name ≡ some d.aur
unfolding classify
classify-mem found [] out h d m = elim (subst (Memᴰ d) (sym (some_inj h)) m) [ ]
classify-mem found (dep ∷ deps) out h d m =
    let (aur, e, h₁) = and_then-some (found dep.name) _ h in
    let (rest, r, h₂) = and_then-some (classify found deps) _ h₁ in
    split_mem aur rest e (classify-mem found deps rest r d) (subst (Memᴰ d) (sym (some_inj h₂)) m)
  where
    split_mem :
        (aur : Bool) (rest : List Requirement)
        → found dep.name ≡ some aur
        → (Memᴰ d rest → found d.name ≡ some d.aur)
        → Memᴰ d (record { name = dep.name; aur = aur } ∷ rest)
        → found d.name ≡ some d.aur
    split_mem aur rest e on_rest (Memᴰ.head q) =
        subst (λ (x : Requirement). found x.name ≡ some x.aur) (sym q) e
    split_mem aur rest e on_rest (Memᴰ.tail n) = on_rest n

module _ (world : World) (name : Text) where
  -- The parsed package that a preview is made of, and its dependencies after the classification.
  preview_aur-parts :
      (node : AurNode)
      → preview_aur world name ≡ some node
      → (c : Checkout) × (parsed : PackageInfo) × (deps : List Requirement) × (parse_package
            world.assignments c.has_pkgbuild c.srcinfo c.pkgbuild
            (codes "aur")
            name
          ≡ some parsed)
        × (classify (λ dep. aur_package_exists (world.listed name dep) dep) parsed.dependencies
            ≡ some deps)
        × (node.preview.info ≡ record parsed { dependencies = deps })
  unfolding preview_aur preview_checkout classify_dependencies
  preview_aur-parts node h =
      let h₀ : and_then (world.clone name) (preview_checkout world name) ≡ some node =
        ground arith in
      let (c, k, h₁) = and_then-some (world.clone name) _ h₀ in
      let (head, _, h₂) = and_then-some c.head _ h₁ in
      let (parsed, p, h₃) = and_then-some (parse_package _ _ _ _ _ _) _ h₂ in
      let (info, i, h₄) = and_then-some (classify_dependencies world name parsed) _ h₃ in
      let (deps, e, h₅) = and_then-some (classify _ parsed.dependencies) _ i in
      let (digest, _, h₆) = and_then-some c.digest _ h₄ in
      let (messages, _, h₇) = and_then-some (audit_package c.pkgbuild) _ h₆ in
      (
        c,
        parsed,
        deps,
        p,
        e,
        ap (λ (n : AurNode). n.preview.info) (sym (some_inj h₇)) ∙ sym (some_inj h₅),
      )

  pub preview_aur-ref :
      (node : AurNode) → preview_aur world name ≡ some node → node.preview.info.source_ref ≡ name
  preview_aur-ref node h =
      let (c, parsed, deps, p, e, i) = preview_aur-parts node h in
      ap (λ (x : PackageInfo). x.source_ref) i
      ∙ parse_package-ref world.assignments c.has_pkgbuild c.srcinfo c.pkgbuild (codes "aur") name
          parsed p

  pub preview_aur-listed :
      (node : AurNode)
      → preview_aur world name ≡ some node
      → (d : Requirement) → Memᴰ d node.preview.info.dependencies
      → aur_package_exists (world.listed name d.name) d.name ≡ some d.aur
  preview_aur-listed node h d m =
      let (c, parsed, deps, p, e, i) = preview_aur-parts node h in
      classify-mem (λ dep. aur_package_exists (world.listed name dep) dep) parsed.dependencies deps
        e d (subst (λ (x : PackageInfo). Memᴰ d x.dependencies) i m)
