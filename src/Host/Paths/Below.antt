-- ===== src/Host/Paths/Below.antt =====
-- filepath.Rel of Go: a result that does not climb leads to a path below the base.
use aurforge.Common.{
  Text, codes, text_eq, text_eq→eq, Bool, true, false, List, [], ◌∷◌, ◌++◌, none, some, ◌≡◌, refl,
  sym, ◌∙◌, ap, arith, Bool-cases, inl, inr, has_prefix, join, if-true, if-false, some_inj,
  false≢true,
}
use aurforge.Host.Paths.{
  relative_path, relative_text, clean_parts, differ, climb, same_root, is_abs,
}

-- The path lies at or below the base, and is reached from it by the relative path.
pub record IsBelow (base path relative : Text) : Type 0 where
  pub rest : List Text
  pub rooted : is_abs path ≡ is_abs base
  pub parts : clean_parts path ≡ clean_parts base ++ rest
  pub reached : relative ≡ relative_text rest

differ-nil :
    (base target rest : List Text) → differ base target ≡ ([], rest) → target ≡ base ++ rest
unfolding differ
differ-nil [] target rest h = ap (λ p. p.1) h
differ-nil (b ∷ base) [] rest h = cc
differ-nil (b ∷ base) (t ∷ target) rest h = elim (Bool-cases (text_eq b t)) [
  | inl e ↦
      let same : b ≡ t = text_eq→eq b t e in
      let tails = differ-nil base target rest (ground arith) in cc
  | inr e ↦ let off : [] ≡ b ∷ base = ground arith in cc
]

join-up : (parts : List Text) → has_prefix (codes "..") (join b'/' (codes ".." ∷ parts)) ≡ true
unfolding has_prefix join
join-up [] = refl
join-up (p ∷ parts) = refl

climb-down :
    (p : List Text × List Text) (relative : Text)
    → climb p ≡ some relative
    → has_prefix (codes "..") relative ≡ false
    → (p.0 ≡ []) × (relative ≡ relative_text p.1)
climb-down ([], target) relative h d = (refl, sym (some_inj h))
climb-down (b ∷ base, target) relative h d = elim (Bool-cases (text_eq b (codes ".."))) [
  | inl e ↦ let off : none ≡ some relative = if-true _ _ e h in cc
  | inr e ↦
      let up = some_inj (if-false _ _ e h) in
      absurd (false≢true (sym d ∙ ap (has_prefix (codes "..")) (sym up) ∙ join-up _))
]

same_root-eq : (a b : Bool) → same_root a b ≡ true → b ≡ a
same_root-eq true b h = h
same_root-eq false true h = cc
same_root-eq false false h = refl

-- A relative path that does not begin with two dots leads to what lies below its base.
pub relative_path-IsBelow :
    (base path relative : Text)
    → relative_path base path ≡ some relative
    → has_prefix (codes "..") relative ≡ false
    → IsBelow base path relative
unfolding relative_path
relative_path-IsBelow base path relative h d =
    elim (Bool-cases (same_root (is_abs base) (is_abs path))) [
      | inl e ↦
          let (none_left, r) = climb-down _ relative (if-true _ _ e h) d in
          record {
            rest = (differ (clean_parts base) (clean_parts path)).1;
            rooted = same_root-eq (is_abs base) (is_abs path) e;
            parts = differ-nil (clean_parts base) (clean_parts path) _ (cc);
            reached = r;
          }
      | inr e ↦ let off : none ≡ some relative = if-false _ _ e h in cc
    ]
