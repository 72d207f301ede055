-- ===== src/Common/Rows.antt =====
-- Lemmas on lists read as tables.
use mathlib.Core.Path.{◌≡◌, refl, sym, ap, subst, ◌∙◌}
use mathlib.Core.Logic.{◌≢◌, ◌⊎◌, inl, inr}
use mathlib.Core.Bool.{Bool, true, false}
use mathlib.Core.Option.{none, some}
use mathlib.Core.List.{List, [], ◌∷◌, ◌++◌, Memᴰ}
use aurforge.Common.Tests.{if◌then◌else◌, Bool-cases, Option-cases, some_inj}
use aurforge.Common.Lists.{select, update, prefer, first_by, All, Distinct}

module _ {ℓ κ} {A : Type ℓ} (P : A → Type κ) where
  pub All-mem : {x : A} (xs : List A) → All P xs → Memᴰ x xs → P x
  All-mem [] h m = elim m [ ]
  All-mem (y ∷ ys) (py, h) (Memᴰ.head e) = subst P (sym e) py
  All-mem (y ∷ ys) (py, h) (Memᴰ.tail m) = All-mem ys h m

  pub All-intro : (xs : List A) → ((x : A) → Memᴰ x xs → P x) → All P xs
  All-intro [] h = tt
  All-intro (x ∷ xs) h = (h x (Memᴰ.head refl), All-intro xs (λ y m. h y (Memᴰ.tail m)))

  pub All-append : (xs ys : List A) → All P xs → All P ys → All P (xs ++ ys)
  All-append [] ys hx hy = hy
  All-append (x ∷ xs) ys (px, hx) hy = (px, All-append xs ys hx hy)

  pub All-select : (p : A → Bool) (xs : List A) → All P xs → All P (select p xs)
  All-select p [] h = tt
  All-select p (x ∷ xs) (px, h) = elim (Bool-cases (p x)) [
    | inl e ↦ rw e (px, All-select p xs h)
    | inr e ↦ rw e (All-select p xs h)
  ]

  -- Where every updated row has the property, and every row that is left, so does the table.
  pub All-update :
      (p : A → Bool) (f : A → A) (xs : List A)
      → ((x : A) → p x ≡ true → P x → P (f x))
      → All P xs
      → All P (update p f xs)
  All-update p f [] h hx = tt
  All-update p f (x ∷ xs) h (px, hx) = elim (Bool-cases (p x)) [
    | inl e ↦ rw e (h x e px, All-update p f xs h hx)
    | inr e ↦ rw e (px, All-update p f xs h hx)
  ]

module _ {ℓ κ μ} {A : Type ℓ} (P : A → Type κ) (Q : A → Type μ) where
  pub All-map : (xs : List A) → ((x : A) → P x → Q x) → All P xs → All Q xs
  All-map [] f h = tt
  All-map (x ∷ xs) f (px, h) = (f x px, All-map xs f h)

module _ {ℓ} {A : Type ℓ} (p : A → Bool) where
  kept :
      (x : A) (ys : List A)
      → (Memᴰ x (select p ys) → Memᴰ x ys)
      → {y : A} → Memᴰ x (y ∷ select p ys)
      → Memᴰ x (y ∷ ys)
  kept x ys rec (Memᴰ.head q) = Memᴰ.head q
  kept x ys rec (Memᴰ.tail n) = Memᴰ.tail (rec n)

  pub mem-select : {x : A} (xs : List A) → Memᴰ x (select p xs) → Memᴰ x xs
  mem-select [] m = m
  mem-select {x} (y ∷ ys) m = elim (Bool-cases (p y)) [
    | inl e ↦
        kept x ys (mem-select ys)
          (subst (λ b. Memᴰ x (if b then y ∷ select p ys else select p ys)) e m)
    | inr e ↦
        Memᴰ.tail
          (mem-select ys (subst (λ b. Memᴰ x (if b then y ∷ select p ys else select p ys)) e m))
  ]

  pub select-All : (xs : List A) → All (λ x. p x ≡ true) (select p xs)
  select-All [] = tt
  select-All (x ∷ xs) = elim (Bool-cases (p x)) [
    | inl e ↦ rw e (e, select-All xs)
    | inr e ↦ rw e (select-All xs)
  ]

  -- A row that passes the test is selected.
  pub select-mem : {x : A} (xs : List A) → p x ≡ true → Memᴰ x xs → Memᴰ x (select p xs)
  select-mem [] h m = m
  select-mem {x} (y ∷ ys) h (Memᴰ.head e) = rw (ap p (sym e) ∙ h) (Memᴰ.head e)
  select-mem {x} (y ∷ ys) h (Memᴰ.tail m) = elim (Bool-cases (p y)) [
    | inl e ↦ rw e (Memᴰ.tail (select-mem ys h m))
    | inr e ↦ rw e (select-mem ys h m)
  ]

module _ {ℓ} {A : Type ℓ} where
  pub mem-update :
      (p : A → Bool) (f : A → A) {x : A} (xs : List A)
      → p x ≡ true
      → Memᴰ x xs
      → Memᴰ (f x) (update p f xs)
  mem-update p f [] h m = elim m [ ]
  mem-update p f (y ∷ ys) h (Memᴰ.head e) =
      Memᴰ.head (ap f e ∙ ap (λ b. if b then f y else y) (sym (ap p (sym e) ∙ h)))
  mem-update p f (y ∷ ys) h (Memᴰ.tail m) = Memᴰ.tail (mem-update p f ys h m)

  pub update-none :
      (p : A → Bool) (f : A → A) (xs : List A) → ((x : A) → p x ≡ false) → update p f xs ≡ xs
  update-none p f [] h = refl
  update-none p f (x ∷ xs) h = cc (h x, update-none p f xs h)

  pub mem-snoc : (x : A) (xs : List A) → Memᴰ x (xs ++ x ∷ [])
  mem-snoc x [] = Memᴰ.head refl
  mem-snoc x (y ∷ ys) = Memᴰ.tail (mem-snoc x ys)

  pub mem-append : {x : A} (xs ys : List A) → Memᴰ x (xs ++ ys) → Memᴰ x xs ⊎ Memᴰ x ys
  mem-append [] ys m = inr m
  mem-append (z ∷ zs) ys (Memᴰ.head e) = inl (Memᴰ.head e)
  mem-append (z ∷ zs) ys (Memᴰ.tail m) = elim (mem-append zs ys m) [
    | inl n ↦ inl (Memᴰ.tail n)
    | inr n ↦ inr n
  ]

  -- A row of an updated table was left alone or was updated.
  pub mem-update-cases :
      (p : A → Bool) (f : A → A) {x : A} (xs : List A)
      → Memᴰ x (update p f xs)
      → (y : A) × Memᴰ y xs × (((p y ≡ true) × (x ≡ f y)) ⊎ ((p y ≡ false) × (x ≡ y)))
  mem-update-cases p f [] m = elim m [ ]
  mem-update-cases p f (y ∷ ys) (Memᴰ.head e) = elim (Bool-cases (p y)) [
    | inl h ↦ (y, Memᴰ.head refl, inl (h, e ∙ ap (λ b. if b then f y else y) h))
    | inr h ↦ (y, Memᴰ.head refl, inr (h, e ∙ ap (λ b. if b then f y else y) h))
  ]
  mem-update-cases p f (y ∷ ys) (Memᴰ.tail m) =
      let (z, n, c) = mem-update-cases p f ys m in (z, Memᴰ.tail n, c)

module _ {ℓ κ} {A : Type ℓ} {B : Type κ} (key : A → B) where
  -- An update that keeps the keys keeps them distinct.
  pub Distinct-update :
      (p : A → Bool) (f : A → A) (xs : List A)
      → ((x : A) → key (f x) ≡ key x)
      → Distinct key xs
      → Distinct key (update p f xs)
  Distinct-update p f [] h d = tt
  Distinct-update p f (x ∷ xs) h (fresh, d) = elim (Bool-cases (p x)) [
    | inl e ↦ rw e (
      rw (h x) (All-update (λ y. key y ≢ key x) p f xs (λ y q n. rw (h y) n) fresh),
      Distinct-update p f xs h d,
    )
    | inr e ↦ rw e (
      All-update (λ y. key y ≢ key x) p f xs (λ y q n. rw (h y) n) fresh,
      Distinct-update p f xs h d,
    )
  ]

  pub Distinct-select : (p : A → Bool) (xs : List A) → Distinct key xs → Distinct key (select p xs)
  Distinct-select p [] d = tt
  Distinct-select p (x ∷ xs) (fresh, d) = elim (Bool-cases (p x)) [
    | inl e ↦ rw e (All-select (λ y. key y ≢ key x) p xs fresh, Distinct-select p xs d)
    | inr e ↦ rw e (Distinct-select p xs d)
  ]

  -- A row with a new key may be added.
  pub Distinct-snoc :
      (xs : List A) (x : A)
      → All (λ y. key y ≢ key x) xs
      → Distinct key xs
      → Distinct key (xs ++ x ∷ [])
  Distinct-snoc [] x h d = (tt, tt)
  Distinct-snoc (y ∷ ys) x (n, h) (fresh, d) = (
    All-append (λ z. key z ≢ key y) ys (x ∷ []) fresh ((λ e. n (sym e)), tt),
    Distinct-snoc ys x h d,
  )

  -- Two rows of one key are one row.
  pub Distinct-unique :
      {x y : A} (xs : List A) → Distinct key xs → Memᴰ x xs → Memᴰ y xs → key x ≡ key y → x ≡ y
  Distinct-unique [] d m n e = elim m [ ]
  Distinct-unique (z ∷ zs) d (Memᴰ.head p) (Memᴰ.head q) e = p ∙ sym q
  Distinct-unique {x} {y} (z ∷ zs) d (Memᴰ.head p) (Memᴰ.tail n) e =
      absurd (All-mem (λ w. key w ≢ key z) zs d.0 n (sym e ∙ ap key p))
  Distinct-unique {x} {y} (z ∷ zs) d (Memᴰ.tail m) (Memᴰ.head q) e =
      absurd (All-mem (λ w. key w ≢ key z) zs d.0 m (e ∙ ap key q))
  Distinct-unique (z ∷ zs) d (Memᴰ.tail m) (Memᴰ.tail n) e = Distinct-unique zs d.1 m n e

pub first_by-none {ℓ} :
    {A : Type ℓ} (before : A → A → Bool) (xs : List A) → first_by before xs ≡ none → xs ≡ []
first_by-none before [] h = refl
first_by-none before (x ∷ xs) h = cc

-- The first row in a strict order is a row, and no row comes before it.
module _ {ℓ} {A : Type ℓ} (before : A → A → Bool)
    (asym : (x y : A) → before x y ≡ true → before y x ≡ false)
    (through : (x y z : A) → before z y ≡ false → before y x ≡ false → before z x ≡ false) where
  abbrev Least : List A → A → Type ℓ
  Least xs m = Memᴰ m xs × All (λ x. before x m ≡ false) xs

  irrefl : (x : A) → before x x ≡ false
  irrefl x = elim (Bool-cases (before x x)) [ inl e ↦ asym x x e | inr e ↦ e ]

  prefer-Least :
      (x : A) (xs : List A) (y : A) → Least xs y → Least (x ∷ xs) (prefer before x (some y))
  prefer-Least x xs y (m, l) = elim (Bool-cases (before y x)) [
    | inl e ↦
        subst (Least (x ∷ xs)) (ap (λ b. if b then y else x) (sym e)) (Memᴰ.tail m, (asym y x e, l))
    | inr e ↦ subst (Least (x ∷ xs)) (ap (λ b. if b then y else x) (sym e)) (
      Memᴰ.head refl,
      (
        irrefl x,
        All-map (λ z. before z y ≡ false) (λ z. before z x ≡ false) xs (λ z n. through x y z n e) l,
      ),
    )
  ]

  pub first_by-Least : (xs : List A) {m : A} → first_by before xs ≡ some m → Least xs m
  first_by-Least [] h = cc
  first_by-Least (x ∷ xs) {m} h =
      subst (Least (x ∷ xs)) (some_inj h) (elim (Option-cases (first_by before xs)) [
        | inl e ↦
            subst (λ o. Least (x ∷ xs) (prefer before x o)) (sym e)
              (subst (λ ys. Least (x ∷ ys) x) (sym (first_by-none before xs e))
                (Memᴰ.head refl, (irrefl x, tt)))
        | inr (y, e) ↦
            subst (λ o. Least (x ∷ xs) (prefer before x o)) (sym e)
              (prefer-Least x xs y (first_by-Least xs e))
      ])
