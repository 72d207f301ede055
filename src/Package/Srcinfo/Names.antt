-- ===== src/Package/Srcinfo/Names.antt =====
-- depName of internal/package.go: the name is read back from a dependency with a version.
use aurforge.Common.{
  ℕ, Text, codes, true, List, [], ◌∷◌, ◌++◌, none, some, cut, has_prefix, trim_space, Lacks,
  Lacks-append, ◌≡◌, refl, ap, ◌∙◌, arith, Memᴰ, ==_iff, length, drop,
}
use aurforge.Package.Srcinfo.{before_marker, markers, dep_name}

-- A separator does not stand in a text that lacks its first byte, or its second.
cut-Lacks : (b : ℕ) (sep s : Text) → Lacks b s → cut (b ∷ sep) s ≡ none
unfolding cut
cut-Lacks b sep [] h = refl
cut-Lacks b sep (c ∷ s) (n, h) = rw (cut-Lacks b sep s h) (ground arith)

cut-Lacks_second : (b e : ℕ) (s : Text) → Lacks e s → cut (b ∷ e ∷ []) s ≡ none
unfolding cut
cut-Lacks_second b e [] h = refl
cut-Lacks_second b e (c ∷ []) h = ground arith
cut-Lacks_second b e (c ∷ d ∷ s) (n, (m, h)) =
    rw (cut-Lacks_second b e (d ∷ s) (m, h)) (ground arith)

has_prefix-append : (sep t : Text) → has_prefix sep (sep ++ t) ≡ true
unfolding has_prefix
has_prefix-append [] t = refl
has_prefix-append (b ∷ sep) t = ground (arith, has_prefix-append sep t)

drop-append : (sep t : Text) → drop (length sep) (sep ++ t) ≡ t
drop-append [] t = refl
drop-append (b ∷ sep) t = drop-append sep t

cut-found :
    (b : ℕ) (sep s t : Text) → Lacks b s → cut (b ∷ sep) (s ++ ((b ∷ sep) ++ t)) ≡ some (s, t)
unfolding cut
cut-found b sep [] t h = rw ((==_iff b b).1 refl, has_prefix-append sep t, drop-append sep t)
cut-found b sep (c ∷ s) t (n, h) = rw (cut-found b sep s t h) (ground arith)

abbrev pub operators : List Text
operators = codes ">=" ∷ codes "<=" ∷ codes "=" ∷ codes ">" ∷ codes "<" ∷ []

module _ (name rest : Text) (n1 : Lacks b'<' name) (n2 : Lacks b'>' name) (n3 : Lacks b'=' name)
    (r1 : Lacks b'<' rest) (r2 : Lacks b'>' rest) (r3 : Lacks b'=' rest) where
  before_operator :
      (op : Text) → Memᴰ op operators → before_marker markers (name ++ (op ++ rest)) ≡ name
  unfolding before_marker
  before_operator op (Memᴰ.head e) = rw e (rw (cut-found b'>' (codes "=") name rest n2))
  before_operator op (Memᴰ.tail (Memᴰ.head e)) = rw e (
      rw (
        cut-Lacks b'>' (codes "=") (name ++ (codes "<=" ++ rest))
            (Lacks-append b'>' name (codes "<=" ++ rest) n2 (omega arith, (omega arith, r2))),
        cut-found b'<' (codes "=") name rest n1,
      ))
  before_operator op (Memᴰ.tail (Memᴰ.tail (Memᴰ.head e))) =
      let whole = name ++ (codes "=" ++ rest) in
      rw e (
        rw (
          cut-Lacks b'>' (codes "=") whole
              (Lacks-append b'>' name (codes "=" ++ rest) n2 (omega arith, r2)),
          cut-Lacks b'<' (codes "=") whole
              (Lacks-append b'<' name (codes "=" ++ rest) n1 (omega arith, r1)),
          cut-found b'=' [] name rest n3,
        ))
  before_operator op (Memᴰ.tail (Memᴰ.tail (Memᴰ.tail (Memᴰ.head e)))) =
      let whole = name ++ (codes ">" ++ rest) in
      let no_eq = Lacks-append b'=' name (codes ">" ++ rest) n3 (omega arith, r3) in
      rw e (
        rw (
          cut-Lacks_second b'>' b'=' whole no_eq,
          cut-Lacks_second b'<' b'=' whole no_eq,
          cut-Lacks b'=' [] whole no_eq,
          cut-found b'>' [] name rest n2,
        ))
  before_operator op (Memᴰ.tail (Memᴰ.tail (Memᴰ.tail (Memᴰ.tail (Memᴰ.head e))))) =
      let whole = name ++ (codes "<" ++ rest) in
      let no_eq = Lacks-append b'=' name (codes "<" ++ rest) n3 (omega arith, r3) in
      rw e (
        rw (
          cut-Lacks_second b'>' b'=' whole no_eq,
          cut-Lacks_second b'<' b'=' whole no_eq,
          cut-Lacks b'=' [] whole no_eq,
          cut-Lacks b'>' [] whole (Lacks-append b'>' name (codes "<" ++ rest) n2 (omega arith, r2)),
          cut-found b'<' [] name rest n1,
        ))
  before_operator op (Memᴰ.tail (Memᴰ.tail (Memᴰ.tail (Memᴰ.tail (Memᴰ.tail m))))) = elim m [ ]

  -- A dependency with a version constraint is read as the name in front of the operator, if neither
  -- name nor version holds a byte of an operator and the name has no space at its ends.
  pub dep_name-operator :
      (op : Text)
      → Memᴰ op operators
      → trim_space name ≡ name
      → dep_name (name ++ (op ++ rest)) ≡ name
  unfolding dep_name
  dep_name-operator op m t = ap trim_space (before_operator op m) ∙ t
