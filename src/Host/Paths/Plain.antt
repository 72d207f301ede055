-- ===== src/Host/Paths/Plain.antt =====
-- filepath.Clean and filepath.Abs of Go: the parts of an absolute path are plain names.
use aurforge.Common.{
  ℕ, Text, codes, text_eq, text_eq_refl, true, false, List, [], ◌∷◌, ◌++◌, Option, some, ◌≡◌, ◌≢◌,
  refl, sym, ◌∙◌, ap, Bool-cases, inl, inr, All, All-append, Lacks, split, join, if-true, ◌==◌,
  ==_iff, some_inj, and_then-some, false≢true, subst, if-false, text_eq→eq, onto_first,
}
use mathlib.Core.List.{reverse, reverse-cons}
use aurforge.Host.{abs_path}
use aurforge.Host.Paths.{is_abs, pop, push_part, push_parts, clean_parts, clean, join_path}

-- The name of a file or a directory, as it stands between two separators.
pub record IsPlain (part : Text) : Type 0 where
  pub not_empty : part ≢ []
  pub not_here : part ≢ codes "."
  pub not_up : part ≢ codes ".."
  pub one_name : Lacks b'/' part

split-All-Lacks : (s : Text) → All (Lacks b'/') (split b'/' s)
unfolding split
split-All-Lacks [] = (tt, tt)
split-All-Lacks (c ∷ s) = elim (Bool-cases (c == b'/')) [
  | inl e ↦ rw e (tt, split-All-Lacks s)
  | inr e ↦ rw e (onto c (split b'/' s) (λ q. cc ((==_iff c b'/').1 q)) (split-All-Lacks s))
]
  where
    onto :
        (c : ℕ) (ps : List Text)
        → c ≢ b'/'
        → All (Lacks b'/') ps
        → All (Lacks b'/') (onto_first c ps)
    onto c [] n h = ((n, tt), tt)
    onto c (p ∷ ps) n (hp, h) = ((n, hp), h)

differs : (a b : Text) → text_eq a b ≡ false → a ≢ b
differs a b h e = false≢true (sym h ∙ ap (λ x. text_eq x b) e ∙ text_eq_refl b)

pop-IsPlain : (stack : List Text) → All IsPlain stack → All IsPlain (pop true stack)
pop-IsPlain [] h = tt
pop-IsPlain (part ∷ stack) (p, h) = elim (Bool-cases (text_eq part (codes ".."))) [
  | inl e ↦ absurd (p.not_up (text_eq→eq part (codes "..") e))
  | inr e ↦ rw e h
]

push_part-IsPlain :
    (part : Text) (stack : List Text)
    → Lacks b'/' part
    → All IsPlain stack
    → All IsPlain (push_part true part stack)
unfolding push_part
push_part-IsPlain part stack n h = elim (Bool-cases (text_eq part [])) [
  | inl e ↦ rw e h
  | inr e ↦ elim (Bool-cases (text_eq part (codes "."))) [
    | inl d ↦ rw (e, d) h
    | inr d ↦ elim (Bool-cases (text_eq part (codes ".."))) [
      | inl u ↦ rw (e, d, u) (pop-IsPlain stack h)
      | inr u ↦
          rw (e, d, u)
            (
              record {
                not_empty = differs part [] e;
                not_here = differs part (codes ".") d;
                not_up = differs part (codes "..") u;
                one_name = n;
              },
              h,
            )
    ]
  ]
]

push_parts-IsPlain :
    (parts stack : List Text)
    → All (Lacks b'/') parts
    → All IsPlain stack
    → All IsPlain (push_parts true parts stack)
unfolding push_parts
push_parts-IsPlain [] stack n h = h
push_parts-IsPlain (part ∷ parts) stack (p, n) h =
    push_parts-IsPlain parts (push_part true part stack) n (push_part-IsPlain part stack p h)

reverse-All : (parts : List Text) → All IsPlain parts → All IsPlain (reverse parts)
reverse-All [] h = tt
reverse-All (part ∷ parts) (p, h) =
    subst (All IsPlain) (sym (reverse-cons part parts))
      (All-append IsPlain (reverse parts) (part ∷ []) (reverse-All parts h) (p, tt))

-- An absolute path in the form that filepath.Clean leaves.
pub record IsClean (path : Text) : Type 0 where
  pub parts : List Text
  pub written : path ≡ b'/' ∷ join b'/' parts
  pub plain : All IsPlain parts

clean-IsClean : (path : Text) → is_abs path ≡ true → IsClean (clean path)
unfolding clean clean_parts
clean-IsClean path h = record {
  parts = clean_parts path;
  written = rw h refl;
  plain = rw h (reverse-All _ (push_parts-IsPlain _ [] (split-All-Lacks path) tt));
}

join_path-IsClean : (base path : Text) → is_abs base ≡ true → IsClean (join_path base path)
unfolding join_path is_abs
join_path-IsClean [] path h = cc
join_path-IsClean (c ∷ base) [] h = clean-IsClean (c ∷ base) h
join_path-IsClean (c ∷ base) (d ∷ path) h = clean-IsClean ((c ∷ base) ++ b'/' ∷ d ∷ path) h

-- The absolute form of a path is clean, where the working directory is absolute.
pub abs_path-IsClean :
    (working_directory : Option Text) (path result : Text)
    → ((d : Text) → working_directory ≡ some d → is_abs d ≡ true)
    → abs_path working_directory path ≡ some result
    → IsClean result
unfolding abs_path
abs_path-IsClean working_directory path result rooted h = elim (Bool-cases (is_abs path)) [
  | inl e ↦ subst IsClean (some_inj (if-true _ _ e h)) (clean-IsClean path e)
  | inr e ↦
      let (d, w, q) =
        and_then-some working_directory (λ d. some (join_path d path)) (if-false _ _ e h) in
      subst IsClean (some_inj q) (join_path-IsClean d path (rooted d w))
]
