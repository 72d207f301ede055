-- ===== src/Common/Strings.antt =====
-- The functions of Go's packages strings and path/filepath that the program calls, over bytes.
use Prim.Native.Nat.{ℕ, zero, suc}
use mathlib.Core.Path.{◌≡◌, refl, sym, ap, ◌∙◌}
use mathlib.Core.Logic.{◌≢◌, inl, inr}
use mathlib.Core.Bool.{Bool, true, false, ◌||◌, ◌&&◌}
use mathlib.Core.Option.{Option, none, some}
use mathlib.Core.List.{List, [], ◌∷◌, ◌++◌, reverse}
use native.Mathlib.Omega.{arith}
use aurforge.Common.Tests.{◌==◌, ==_iff, Bool-cases, if◌then◌else◌}
use aurforge.Common.Lists.{length, All}
use aurforge.Common.Bytes.{Text}

abbrev pub Lacks : ℕ → Text → Type 0
Lacks b = All (λ c. c ≢ b)

abbrev pub drop {ℓ} : {A : Type ℓ} → ℕ → List A → List A
drop zero xs = xs
drop (suc n) [] = []
drop (suc n) (x ∷ xs) = drop n xs

-- strings.HasPrefix, strings.HasSuffix and strings.TrimSuffix, with the part first.
unfoldable pub has_prefix : Text → Text → Bool
has_prefix [] s = true
has_prefix (p ∷ ps) [] = false
has_prefix (p ∷ ps) (c ∷ s) = p == c && has_prefix ps s

unfoldable pub has_suffix : Text → Text → Bool
unfolding has_prefix
has_suffix p s = has_prefix (reverse p) (reverse s)

unfoldable pub trim_suffix : Text → Text → Text
unfolding has_suffix
trim_suffix p s = if has_suffix p s then reverse (drop (length p) (reverse s)) else s

abbrev pub before_more : ℕ → Option (Text × Text) → Option (Text × Text)
before_more c none = none
before_more c (some (before, after)) = some (c ∷ before, after)

-- strings.Cut at a separator that is not empty: the text around its first occurrence.
unfoldable pub cut : Text → Text → Option (Text × Text)
unfolding has_prefix
cut sep [] = none
cut sep (c ∷ s) =
    let rest = before_more c (cut sep s) in
    if has_prefix sep (c ∷ s) then some ([], drop (length sep) (c ∷ s)) else rest

-- strings.Contains
unfoldable pub contains : Text → Text → Bool
unfolding has_prefix
contains sub [] = has_prefix sub []
contains sub (c ∷ s) = has_prefix sub (c ∷ s) || contains sub s

abbrev pub onto_first : ℕ → List Text → List Text
onto_first c [] = (c ∷ []) ∷ []
onto_first c (p ∷ ps) = (c ∷ p) ∷ ps

-- strings.Split at one byte, and strings.Join with one.
unfoldable pub split : ℕ → Text → List Text
split sep [] = [] ∷ []
split sep (c ∷ s) = let rest = split sep s in if c == sep then [] ∷ rest else onto_first c rest

unfoldable pub join : ℕ → List Text → Text
join sep [] = []
join sep (p ∷ []) = p
join sep (p ∷ q ∷ ps) = p ++ sep ∷ join sep (q ∷ ps)

-- White space of one byte: tab, newline, vertical tab, form feed, carriage return and space.
unfoldable pub is_space : ℕ → Bool
is_space c = c == 9 || c == 10 || c == 11 || c == 12 || c == 13 || c == 32

unfoldable pub trim_left : Text → Text
unfolding is_space
trim_left [] = []
trim_left (c ∷ s) = let rest = trim_left s in if is_space c then rest else c ∷ s

-- strings.TrimSpace
unfoldable pub trim_space : Text → Text
unfolding trim_left
trim_space s = reverse (trim_left (reverse (trim_left s)))

module _ (sep : ℕ) where
  pub split-ne-nil : (s : Text) → split sep s ≢ []
  unfolding split
  split-ne-nil [] h = cc
  split-ne-nil (c ∷ s) h = ground (arith, split-ne-nil s)

  onto_first-append :
      (c : ℕ) (ps qs : List Text) → ps ≢ [] → onto_first c (ps ++ qs) ≡ onto_first c ps ++ qs
  onto_first-append c [] qs h = absurd (h refl)
  onto_first-append c (p ∷ ps) qs h = refl

  -- A split at a separator that stands in the text is the splits of the two sides.
  pub split-append : (s t : Text) → split sep (s ++ sep ∷ t) ≡ split sep s ++ split sep t
  unfolding split
  split-append [] t = rw ((==_iff sep sep).1 refl)
  split-append (c ∷ s) t = elim (Bool-cases (c == sep)) [
    | inl e ↦ rw e (ap (λ l. [] ∷ l) (split-append s t))
    | inr e ↦ rw e (
        ap (onto_first c) (split-append s t)
        ∙ onto_first-append c (split sep s) (split sep t) (split-ne-nil s))
  ]

  pub split-Lacks : (s : Text) → Lacks sep s → split sep s ≡ s ∷ []
  unfolding split
  split-Lacks [] h = refl
  split-Lacks (c ∷ s) (n, h) = rw (split-Lacks s h) (ground arith)

  join-onto_first :
      (c : ℕ) (ps : List Text) → ps ≢ [] → join sep (onto_first c ps) ≡ c ∷ join sep ps
  unfolding join
  join-onto_first c [] h = absurd (h refl)
  join-onto_first c (p ∷ []) h = refl
  join-onto_first c (p ∷ q ∷ ps) h = refl

  join-nil-cons : (ps : List Text) → ps ≢ [] → join sep ([] ∷ ps) ≡ sep ∷ join sep ps
  unfolding join
  join-nil-cons [] h = absurd (h refl)
  join-nil-cons (p ∷ ps) h = refl

  pub join-split : (s : Text) → join sep (split sep s) ≡ s
  unfolding split
  join-split [] = unfold join in refl
  join-split (c ∷ s) = elim (Bool-cases (c == sep)) [
    | inl e ↦ rw e (
        join-nil-cons (split sep s) (split-ne-nil s)
        ∙ ap (λ l. sep ∷ l) (join-split s)
        ∙ ap (λ x. x ∷ s) (sym ((==_iff c sep).0 e)))
    | inr e ↦
        rw e (join-onto_first c (split sep s) (split-ne-nil s) ∙ ap (λ l. c ∷ l) (join-split s))
  ]

  pub Lacks-append : (s t : Text) → Lacks sep s → Lacks sep t → Lacks sep (s ++ t)
  Lacks-append [] t h k = k
  Lacks-append (c ∷ s) t (n, h) k = (n, Lacks-append s t h k)
