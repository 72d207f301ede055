-- ===== src/Host/Container/Digits.antt =====
-- currentContainerID of internal/hostpath.go: what is taken for the id of the container.
use aurforge.Common.{
  ℕ, zero, suc, ◌+◌, ◌≤◌, Text, true, List, [], ◌∷◌, ◌++◌, Option, none, some, ◌≡◌, ◌≢◌, ◌⊎◌, inl,
  inr, refl, sym, ◌∙◌, ap, subst, arith, Bool-cases, Option-cases, some_inj, All, All-append,
  length, leb, leb→le, and_then-some, if-true, if-false, split, map, trim_suffix,
}
use mathlib.Core.List.{reverse, reverse-cons}
use aurforge.Host.Container.{
  is_hex, without_scope, hex_digits, id_in_segment, first_id, payload_of, id_in_lines,
  container_id_from_cgroup, host_name, or_else, current_container_id,
}

abbrev Hex : Text → Type 0
Hex = All (λ c. is_hex c ≡ true)

-- From twelve to 64 hexadecimal digits.
pub record IsId (id : Text) : Type 0 where
  pub digits : Hex id
  pub at_least : 12 ≤ length id
  pub at_most : length id ≤ 64

hex_digits-Hex : (n : ℕ) (s : Text) → Hex (hex_digits n s) × (length (hex_digits n s) ≤ n)
unfolding hex_digits
hex_digits-Hex zero s = (tt, omega arith)
hex_digits-Hex (suc n) [] = (tt, omega arith)
hex_digits-Hex (suc n) (c ∷ s) = elim (Bool-cases (is_hex c)) [
  | inl e ↦ let (h, l) = hex_digits-Hex n s in rw e ((e, h), omega arith)
  | inr e ↦ rw e (tt, omega arith)
]

length-append : (s t : Text) → length (s ++ t) ≡ length s + length t
length-append [] t = omega arith
length-append (c ∷ s) t = let h = length-append s t in omega arith

length-reverse : (s : Text) → length (reverse s) ≡ length s
length-reverse [] = refl
length-reverse (c ∷ s) =
    let e = ap length (reverse-cons c s) ∙ length-append (reverse s) (c ∷ []) in
    let h = length-reverse s in e ∙ ap (λ n. n + 1) h ∙ omega arith

reverse-Hex : (s : Text) → Hex s → Hex (reverse s)
reverse-Hex [] h = tt
reverse-Hex (c ∷ s) (e, h) =
    subst Hex (sym (reverse-cons c s))
      (All-append (λ d. is_hex d ≡ true) (reverse s) (c ∷ []) (reverse-Hex s h) (e, tt))

id_in_segment-IsId : (segment id : Text) → id_in_segment segment ≡ some id → IsId id
unfolding id_in_segment
id_in_segment-IsId segment id h =
    let found = hex_digits 64 (without_scope (reverse segment)) in
    let (x, most) = hex_digits-Hex 64 (without_scope (reverse segment)) in
    elim (Bool-cases (leb 12 (length found))) [
      | inl e ↦
          let same : reverse found ≡ id = some_inj (if-true _ _ e h) in
          let least : 12 ≤ length found = leb→le 12 (length found) e in
          subst IsId same (record {
            digits = reverse-Hex found x;
            at_least = subst (λ n. 12 ≤ n) (sym (length-reverse found)) least;
            at_most = subst (λ n. n ≤ 64) (sym (length-reverse found)) most;
          })
      | inr e ↦ let off : none ≡ some id = if-false _ _ e h in cc
    ]

or_else-cases : (a b : Option Text) {x : Text} → or_else a b ≡ some x → (a ≡ some x) ⊎ (b ≡ some x)
or_else-cases none b h = inr h
or_else-cases (some y) b h = inl h

first_id-IsId : (segments : List Text) (id : Text) → first_id segments ≡ some id → IsId id
unfolding first_id
first_id-IsId [] id h = cc
first_id-IsId (segment ∷ segments) id h =
    elim (or_else-cases (id_in_segment segment) (first_id segments) h) [
      | inl e ↦ id_in_segment-IsId segment id e
      | inr e ↦ first_id-IsId segments id e
    ]

id_in_lines-IsId : (lines : List Text) (id : Text) → id_in_lines lines ≡ some id → IsId id
unfolding id_in_lines
id_in_lines-IsId [] id h = cc
id_in_lines-IsId (line ∷ lines) id h =
    elim (or_else-cases (first_id (split b'/' (payload_of line (split b':' line))))
      (id_in_lines lines) h) [
        | inl e ↦ first_id-IsId (split b'/' (payload_of line (split b':' line))) id e
        | inr e ↦ id_in_lines-IsId lines id e
      ]

container_id_from_cgroup-IsId :
    (cgroup : Option Text) (id : Text) → container_id_from_cgroup cgroup ≡ some id → IsId id
unfolding container_id_from_cgroup
container_id_from_cgroup-IsId cgroup id h =
    let (text, e, q) = and_then-some cgroup _ h in
    id_in_lines-IsId (map (trim_suffix (13 ∷ [])) (split 10 text)) id q

host_name_lem :
    (hostname : Option Text) (id : Text)
    → host_name hostname ≡ some id
    → (hostname ≡ some id) × (id ≢ [])
host_name_lem none id h = cc
host_name_lem (some []) id h = cc
host_name_lem (some (c ∷ name)) id h = (h, λ e. cc)

-- What is taken for the id of the container is from twelve to 64 hexadecimal digits that
-- /proc/self/cgroup gives, or the name of the host, where that file gives none, and it is not
-- empty.
pub current_container_id-IsId :
    (cgroup hostname : Option Text) (id : Text)
    → current_container_id cgroup hostname ≡ some id
    → ((container_id_from_cgroup cgroup ≡ some id) × IsId id)
      ⊎ ((container_id_from_cgroup cgroup ≡ none) × (hostname ≡ some id) × (id ≢ []))
unfolding current_container_id
current_container_id-IsId cgroup hostname id h =
    elim (Option-cases (container_id_from_cgroup cgroup)) [
      | inl e ↦
          let (q, n) =
            host_name_lem hostname id (sym (ap (λ o. or_else o (host_name hostname)) e) ∙ h) in
          inr (e, q, n)
      | inr (x, e) ↦
          let same : some x ≡ some id = sym (ap (λ o. or_else o (host_name hostname)) e) ∙ h in
          let found : container_id_from_cgroup cgroup ≡ some id = e ∙ same in
          inl (found, container_id_from_cgroup-IsId cgroup id found)
    ]
