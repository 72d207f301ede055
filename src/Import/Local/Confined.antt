-- ===== src/Import/Local/Confined.antt =====
-- PreviewLocal of internal/import.go: a local import stays below its root.
use aurforge.Common.{
  Text, codes, text_eq, text_eq→eq, true, ◌||◌, [], ◌∷◌, ◌++◌, none, some, ◌≡◌, ◌⊎◌, inl, inr, refl,
  ◌∙◌, subst, arith, Bool-cases, and_then-some, some_inj, has_prefix, if-true, if-false, ◌==◌,
  ==_iff, append_assoc,
}
use aurforge.Tree.{hash_tree}
use aurforge.Host.{abs_path}
use aurforge.Host.Paths.{is_abs}
use aurforge.Host.Paths.Plain.{IsClean, abs_path-IsClean}
use aurforge.Package.Srcinfo.{parse_package}
use aurforge.Import.{Preview, audit_package}
use aurforge.Import.Refs.{parse_package-ref}
use aurforge.Import.Local.{
  Workplace, below_root, under_root, local_path, preview_folder, preview_local,
}

has_prefix-rest : (p s : Text) → has_prefix p s ≡ true → (rest : Text) × (s ≡ p ++ rest)
unfolding has_prefix
has_prefix-rest [] s h = (s, refl)
has_prefix-rest (b ∷ p) [] h = cc
has_prefix-rest (b ∷ p) (c ∷ s) h = elim (Bool-cases (b == c)) [
  | inl e ↦
      let (rest, q) = has_prefix-rest p s (ground arith) in
      let same : b ≡ c = (==_iff b c).0 e in (rest, cc)
  | inr e ↦ absurd (ground arith)
]

-- A path is the root itself, or lies under it.
abbrev pub Inside : Text → Text → Type 0
Inside root path = (path ≡ root) ⊎ ((rest : Text) × (path ≡ root ++ b'/' ∷ rest))

below_root-Inside :
    (root path result : Text)
    → below_root root path ≡ some result
    → (path ≡ result) × Inside root result
unfolding below_root
below_root-Inside root path result h =
    elim (Bool-cases (text_eq path root || has_prefix (root ++ codes "/") path)) [
      | inl e ↦
          let found = some_inj (if-true _ _ e h) in (found, subst (Inside root) found (inside e))
      | inr e ↦ let off : none ≡ some result = if-false _ _ e h in cc
    ]
  where
    inside : (text_eq path root || has_prefix (root ++ codes "/") path) ≡ true → Inside root path
    inside e = elim (Bool-cases (text_eq path root)) [
      | inl same ↦ inl (text_eq→eq path root same)
      | inr other ↦
          let (rest, q) = has_prefix-rest (root ++ codes "/") path (ground arith) in
          inr (rest, q ∙ append_assoc root (codes "/") rest)
    ]

-- What a preview of a local directory is: it is inside the root, its path is clean, so that no
-- part of it leads up, and the package's reference is that path.
pub record IsConfined (place : Workplace) (root : Text) (preview : Preview) : Type 0 where
  pub clean_root : Text
  pub root_path : abs_path place.working_directory root ≡ some clean_root
  pub inside : Inside clean_root preview.path
  pub clean_path : IsClean preview.path
  pub referenced : preview.info.source_ref ≡ preview.path
  pub digested : hash_tree place.sha256 (place.folder preview.path).contents ≡ some preview.digest

-- A preview of a local directory is of a clean path inside the root of the local imports, which is
-- the package's reference, and its digest is that of the directory, where the working directory is
-- absolute.
pub preview_local-IsConfined :
    (place : Workplace) (root path : Text) (preview : Preview)
    → ((d : Text) → place.working_directory ≡ some d → is_abs d ≡ true)
    → preview_local place root path ≡ some preview
    → IsConfined place root preview
unfolding preview_local local_path preview_folder
preview_local-IsConfined place root path preview rooted h =
    let (clean_path, found, h₁) =
      and_then-some (local_path place.working_directory root path) _ h in
    let (clean_root, e, h₂) = and_then-some (abs_path place.working_directory root) _ found in
    let (absolute, a, h₃) =
      and_then-some (abs_path place.working_directory (under_root clean_root path))
        (below_root clean_root) h₂ in
    let (same, inside) = below_root-Inside clean_root absolute clean_path h₃ in
    let f = place.folder clean_path in
    let (info, p, h₄) =
      and_then-some
        (parse_package place.assignments f.has_pkgbuild f.srcinfo f.pkgbuild (codes "local")
          clean_path)
        _ h₁ in
    let (digest, d, h₅) = and_then-some (hash_tree place.sha256 f.contents) _ h₄ in
    let (messages, m, h₆) = and_then-some (audit_package f.pkgbuild) _ h₅ in
    let made = some_inj h₆ in
    subst (IsConfined place root) made (record {
      clean_root = clean_root;
      root_path = e;
      inside = inside;
      clean_path =
          subst IsClean same (
            abs_path-IsClean place.working_directory (under_root clean_root path) absolute rooted
              a);
      referenced =
          parse_package-ref place.assignments f.has_pkgbuild f.srcinfo f.pkgbuild (codes "local")
            clean_path info p;
      digested = d;
    })
