-- ===== src/Import/Graph/Unseen.antt =====
-- The measure of the search in ResolveAURGraph of internal/import.go: how many of the names that
-- the AUR knows are not visited.
use aurforge.Common.{
  ℕ, suc, ◌<◌, ◌≤◌, Text, text_eq, text_eq→eq, text_eq_refl, true, false, List, [], ◌∷◌, ◌≡◌, ◌≢◌,
  inl, inr, sym, ◌∙◌, ap, subst, arith, Memᴰ, All, Bool-cases, if◌then◌else◌, length,
}
use aurforge.Import.{is_visited}

pub is_visited-mem :
    (name : Text) (names : List Text) → is_visited name names ≡ true → Memᴰ name names
is_visited-mem name [] h = cc
is_visited-mem name (v ∷ vs) h = elim (Bool-cases (text_eq v name)) [
  | inl e ↦ Memᴰ.head (sym (text_eq→eq v name e))
  | inr e ↦ Memᴰ.tail (is_visited-mem name vs (ground arith))
]

mem-is_visited : (name : Text) (names : List Text) → Memᴰ name names → is_visited name names ≡ true
mem-is_visited name [] m = elim m [ ]
mem-is_visited name (v ∷ vs) (Memᴰ.head e) =
    let same : text_eq v name ≡ true = ap (text_eq v) e ∙ text_eq_refl v in ground arith
mem-is_visited name (v ∷ vs) (Memᴰ.tail m) = ground (arith, mem-is_visited name vs m)

pub is_visited-fresh :
    (name : Text) (names : List Text)
    → is_visited name names ≡ false
    → All (λ (x : Text). x ≢ name) names
is_visited-fresh name [] h = tt
is_visited-fresh name (v ∷ vs) h = (
  λ e. (let same : text_eq v name ≡ true = ap (text_eq v) (sym e) ∙ text_eq_refl v in ground arith),
  is_visited-fresh name vs (ground arith),
)

abbrev pub unseen : List Text → List Text → ℕ
unseen [] visited = 0
unseen (u ∷ us) visited =
    let rest = unseen us visited in if is_visited u visited then rest else suc rest

pub unseen-nil : (known : List Text) → unseen known [] ≤ length known
unseen-nil [] = omega arith
unseen-nil (u ∷ us) = ground (arith, unseen-nil us)

module _ (before after : List Text) (grows : (x : Text) → Memᴰ x before → Memᴰ x after) where
  still : (x : Text) → is_visited x before ≡ true → is_visited x after ≡ true
  still x h = mem-is_visited x after (grows x (is_visited-mem x before h))

  pub unseen-le : (known : List Text) → unseen known after ≤ unseen known before
  unseen-le [] = omega arith
  unseen-le (u ∷ us) = ground (arith, unseen-le us, still u)

  -- A visit to a new name that is known leaves fewer.
  pub unseen-lt :
      (name : Text) (known : List Text)
      → Memᴰ name known
      → is_visited name before ≡ false
      → Memᴰ name after
      → unseen known after < unseen known before
  unseen-lt name [] m new now = elim m [ ]
  unseen-lt name (u ∷ us) (Memᴰ.head e) new now =
      let was : is_visited u before ≡ false = ap (λ x. is_visited x before) (sym e) ∙ new in
      let is : is_visited u after ≡ true =
        mem-is_visited u after (subst (λ x. Memᴰ x after) e now) in
      ground (arith, unseen-le us)
  unseen-lt name (u ∷ us) (Memᴰ.tail m) new now =
      ground (arith, unseen-lt name us m new now, still u)
