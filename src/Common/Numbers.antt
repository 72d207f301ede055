-- ===== src/Common/Numbers.antt =====
-- strconv.Atoi of Go on a machine with integers of 64 bits.
use Prim.Native.Nat.{ℕ, zero, suc, ◌/◌, ◌%◌, ◌+◌, ◌-◌, ◌*◌}
use mathlib.Core.Bool.{Bool, true, false, ◌&&◌}
use mathlib.Core.Option.{Option, none, some}
use mathlib.Core.List.{[], ◌∷◌}
use aurforge.Common.Tests.{ltb, leb, ◌==◌, if◌then◌else◌}
use aurforge.Common.Bytes.{Text}

-- A number at least zero, or one below: `negsuc n` is -(n + 1).
pub data ℤ : Type 0 where
  pos negsuc : ℕ → ℤ

abbrev pub is_digit : ℕ → Bool
is_digit c = leb b'0' c && leb c b'9'

-- The digits that are left, with the value of those before.
unfoldable pub digits_onto : ℕ → Text → Option ℕ
digits_onto n [] = some n
digits_onto n (c ∷ s) =
    let rest = digits_onto (n * 10 + (c - b'0')) s in if is_digit c then rest else none

unfoldable pub digits : Text → Option ℕ
unfolding digits_onto
digits [] = none
digits (c ∷ s) = digits_onto 0 (c ∷ s)

-- 2 ^ 63
abbrev pub int_limit : ℕ
int_limit = 9223372036854775808

abbrev pub in_range_pos : Option ℕ → Option ℤ
in_range_pos none = none
in_range_pos (some n) = if ltb n int_limit then some (pos n) else none

abbrev pub negative : ℕ → ℤ
negative zero = pos 0
negative (suc n) = negsuc n

abbrev pub in_range_neg : Option ℕ → Option ℤ
in_range_neg none = none
in_range_neg (some n) = if leb n int_limit then some (negative n) else none

unfoldable pub atoi : Text → Option ℤ
unfolding digits
atoi [] = none
atoi (c ∷ s) =
    if c == b'-'
    then in_range_neg (digits s)
    else if c == b'+'
    then in_range_pos (digits s)
    else in_range_pos (digits (c ∷ s))

-- fmt's %d of a number that is not negative, onto the text behind it. More fuel than the number is
-- enough.
unfoldable pub decimal_onto : ℕ → ℕ → Text → Text
decimal_onto zero n s = s
decimal_onto (suc fuel) n s = elim (ltb n 10) [
  | true ↦ (b'0' + n) ∷ s
  | false ↦ decimal_onto fuel (n / 10) ((b'0' + n % 10) ∷ s)
]

unfoldable pub decimal : ℕ → Text
unfolding decimal_onto
decimal n = decimal_onto (suc n) n []
