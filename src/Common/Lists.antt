-- ===== src/Common/Lists.antt =====
-- Lists read as tables: selection, update in place, the least row in an order, and the
-- predicates by which statements speak of every row.
use Prim.Native.Nat.{ℕ, suc}
use mathlib.Core.Logic.{◌≢◌}
use mathlib.Core.Bool.{Bool, false, ◌||◌}
use mathlib.Core.Option.{Option, none, some}
use mathlib.Core.List.{List, [], ◌∷◌}
use aurforge.Common.Tests.{if◌then◌else◌}

module _ {ℓ} {A : Type ℓ} where
  abbrev pub length : List A → ℕ
  length [] = 0
  length (_ ∷ xs) = suc (length xs)

  -- The rows at which a test passes, in their order.
  abbrev pub select : (A → Bool) → List A → List A
  select p [] = []
  select p (x ∷ xs) = let rest = select p xs in if p x then x ∷ rest else rest

  -- Every row at which the test passes is replaced.
  abbrev pub update : (A → Bool) → (A → A) → List A → List A
  update p f [] = []
  update p f (x ∷ xs) = (if p x then f x else x) ∷ update p f xs

  abbrev pub any : (A → Bool) → List A → Bool
  any p [] = false
  any p (x ∷ xs) = p x || any p xs

  -- The row that the first of two candidates yields to only if the second comes before it.
  abbrev pub prefer : (A → A → Bool) → A → Option A → A
  prefer before x none = x
  prefer before x (some y) = if before y x then y else x

  -- The first row in an order: of rows that the order does not tell apart, the earlier one.
  abbrev pub first_by : (A → A → Bool) → List A → Option A
  first_by before [] = none
  first_by before (x ∷ xs) = some (prefer before x (first_by before xs))

  abbrev pub All {κ} : (A → Type κ) → List A → Type κ
  All P [] = Unit
  All P (x ∷ xs) = P x × All P xs

-- No two rows agree under a key.
abbrev pub Distinct {ℓ κ} : {A : Type ℓ} {B : Type κ} → (A → B) → List A → Type (ℓ ⊔ κ)
Distinct f [] = Unit
Distinct f (x ∷ xs) = All (λ y. f y ≢ f x) xs × Distinct f xs
