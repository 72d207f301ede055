-- ===== src/Command/Add/Chosen.antt =====
-- The choice of a result in add of cmd/aurforge/main.go.
use aurforge.Common.{
  ℤ, pos, negsuc, ℕ, zero, suc, ◌-◌, ◌≤◌, ◌<◌, false, ◌&&◌, List, [], ◌∷◌, length, some, ◌≡◌, ◌⊎◌,
  inl, inr, refl, arith, leb, Bool-cases, Memᴰ,
}
use aurforge.Session.{ok, Session}
use aurforge.Command.Add.{AurResult, element, out_of_range, select_result}

element-exists :
    (i : ℕ) (results : List AurResult)
    → i < length results
    → (r : AurResult) × (element i results ≡ some r) × Memᴰ r results
element-exists i [] h = absurd (omega arith)
element-exists zero (r ∷ rs) h = (r, refl, Memᴰ.head refl)
element-exists (suc i) (r ∷ rs) h =
    let (q, e, m) = element-exists i rs (omega arith) in (q, e, Memᴰ.tail m)

-- What a selection comes to: one of the results, the one at that place counted from one, or the
-- error of a selection that is out of range.
pub data IsChosen (s : Session) (results : List AurResult) : ℤ → Type 0 where
  in_range :
      {n : ℕ} {r : AurResult}
      → 1 ≤ n
      → n ≤ length results
      → Memᴰ r results
      → element (n - 1) results ≡ some r
      → select_result (pos n) results s ≡ (ok r, s)
      → IsChosen s results (pos n)
  too_small_or_large :
      {n : ℕ}
      → (n < 1) ⊎ (length results < n)
      → select_result (pos n) results s ≡ out_of_range s
      → IsChosen s results (pos n)
  below_zero :
      {n : ℕ} → select_result (negsuc n) results s ≡ out_of_range s → IsChosen s results (negsuc n)

-- A selection is an error unless it is between one and the number of results, and then it is the
-- result at that place: the index is never out of bounds.
pub select_result-IsChosen : (n : ℤ) (results : List AurResult) (s : Session) → IsChosen s results n
unfolding select_result
select_result-IsChosen (negsuc n) results s = below_zero refl
select_result-IsChosen (pos n) results s = elim (Bool-cases (leb 1 n && leb n (length results))) [
  | inl e ↦
      let (r, f, m) = element-exists (n - 1) results (ground arith) in
      in_range (ground arith) (ground arith) m f (rw (select_result, e, f) refl)
  | inr e ↦ too_small_or_large (outside e) (rw (select_result, e) refl)
]
  where
    outside : (leb 1 n && leb n (length results)) ≡ false → (n < 1) ⊎ (length results < n)
    outside e = elim (Bool-cases (leb 1 n)) [
      | inl h ↦ inr (ground arith)
      | inr h ↦ inl (ground arith)
    ]
