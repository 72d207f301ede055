-- ===== src/Host/Mounts.antt =====
-- hostPathFromBindMounts and resolveHostDataRoot of internal/hostpath.go: which mount is taken,
-- and that a data root is absolute.
use aurforge.Common.{
  and_then-some, ◌≤◌, Text, true, false, ◌&&◌, not, List, [], ◌∷◌, Option, none, some, ◌≡◌, ◌⊎◌,
  inl, inr, refl, sym, ◌∙◌, ap, subst, arith, Memᴰ, length, Bool-cases, if◌then◌else◌, some_inj,
  false≢true,
}
use aurforge.Host.Paths.{is_abs}
use aurforge.Host.{
  BindMount, covers, longer, best_mount, on_host, abs_path, host_path_from_bind_mounts, is_empty,
  configured_root, resolve_host_data_root,
}

-- A mount that covers the path, with a destination as long as that of any other that does.
pub record IsLongest (path : Text) (mounts : List BindMount) (best : BindMount) : Type 0 where
  pub listed : Memᴰ best mounts
  pub covering : covers path best ≡ true
  pub longest :
      (m : BindMount)
      → Memᴰ m mounts
      → covers path m ≡ true
      → length m.destination ≤ length best.destination

-- What is known of `best` in the loop: a mount that covers the path is still to be looked at, or
-- its destination is no longer than that of the best one.
data Searching (path : Text) (mounts left : List BindMount) : Option BindMount → Type 0 where
  nothing :
      ((m : BindMount) → Memᴰ m mounts → covers path m ≡ true → Memᴰ m left)
      → Searching path mounts left none
  candidate :
      {b : BindMount}
      → Memᴰ b mounts
      → covers path b ≡ true
      → ((m : BindMount)
          → Memᴰ m mounts
          → covers path m ≡ true
          → Memᴰ m left ⊎ (length m.destination ≤ length b.destination))
      → Searching path mounts left (some b)

module _ (path : Text) (mounts : List BindMount) where
  head_or_tail :
      {m x : BindMount} {left : List BindMount} → Memᴰ m (x ∷ left) → (m ≡ x) ⊎ Memᴰ m left
  head_or_tail (Memᴰ.head e) = inl e
  head_or_tail (Memᴰ.tail k) = inr k

  look :
      (x : BindMount) (left : List BindMount) (best : Option BindMount)
      → Memᴰ x mounts
      → Searching path mounts (x ∷ left) best
      → Searching path mounts left (if covers path x && longer best x then some x else best)
  look x left none k (nothing h) = elim (Bool-cases (covers path x)) [
    | inl e ↦ rw e (
        candidate k e λ m n c. elim (head_or_tail (h m n c)) [
          | inl q ↦ inr (
              subst (λ (y : BindMount). length m.destination ≤ length y.destination) q
                (omega arith))
          | inr t ↦ inl t
        ])
    | inr e ↦ rw e (
        nothing λ m n c. elim (head_or_tail (h m n c)) [
          | inl q ↦ absurd (false≢true (sym e ∙ ap (covers path) (sym q) ∙ c))
          | inr t ↦ t
        ])
  ]
  look x left (some b) k (candidate n₀ c₀ h) =
      elim (Bool-cases (covers path x && longer (some b) x)) [
        | inl e ↦ rw e (
            candidate k (ground arith) λ m n c. elim (h m n c) [
              | inr le ↦ inr (ground arith)
              | inl t ↦ elim (head_or_tail t) [
                | inl q ↦ inr (
                    subst (λ (y : BindMount). length m.destination ≤ length y.destination) q
                      (omega arith))
                | inr u ↦ inl u
              ]
            ])
        | inr e ↦ rw e (
            candidate n₀ c₀ λ m n c. elim (h m n c) [
              | inr le ↦ inr le
              | inl t ↦ elim (head_or_tail t) [ inl q ↦ inr (shorter m e c q) | inr u ↦ inl u ]
            ])
      ]
    where
      shorter :
          (m : BindMount)
          → (covers path x && longer (some b) x) ≡ false
          → covers path m ≡ true
          → m ≡ x
          → length m.destination ≤ length b.destination
      shorter m e c q =
          let cx : covers path x ≡ true = ap (covers path) (sym q) ∙ c in
          subst (λ (y : BindMount). length y.destination ≤ length b.destination) (sym q)
            (ground arith)

  best_mount-Searching :
      (left : List BindMount) (best : Option BindMount)
      → ((m : BindMount) → Memᴰ m left → Memᴰ m mounts)
      → Searching path mounts left best
      → Searching path mounts [] (best_mount path best left)
  unfolding best_mount
  best_mount-Searching [] best h s = s
  best_mount-Searching (x ∷ left) best h s =
      best_mount-Searching left _ (λ m k. h m (Memᴰ.tail k))
        (look x left best (h x (Memᴰ.head refl)) s)

  best_mount-IsLongest :
      (b : BindMount) → best_mount path none mounts ≡ some b → IsLongest path mounts b
  best_mount-IsLongest b e = found (
      subst (Searching path mounts []) e
        (best_mount-Searching mounts none (λ m k. k) (nothing λ m k c. k)))
    where
      found : Searching path mounts [] (some b) → IsLongest path mounts b
      found (candidate n c h) = record {
        listed = n;
        covering = c;
        longest = λ m k q. elim (h m k q) [ inl t ↦ elim t [ ] | inr le ↦ le ];
      }

-- A path of the host comes from the absolute form of the path and from a mount with a source that
-- covers it, and no mount that does so has a longer destination.
pub host_path_from_bind_mounts-IsLongest :
    (working_directory : Option Text) (container_path result : Text) (mounts : List BindMount)
    → host_path_from_bind_mounts working_directory container_path mounts ≡ some result
    → (path : Text) × (best : BindMount) × (abs_path working_directory container_path ≡ some path)
      × IsLongest path mounts best
      × (on_host path best ≡ some result)
unfolding host_path_from_bind_mounts
host_path_from_bind_mounts-IsLongest working_directory container_path result mounts h =
    let (path, p, h₁) = and_then-some (abs_path working_directory container_path) _ h in
    let (best, b, h₂) = and_then-some (best_mount path none mounts) _ h₁ in
    (path, best, p, best_mount-IsLongest path mounts best b, h₂)

-- The mounts give no absolute path.
abbrev pub IsUnusable : Option Text → Type 0
IsUnusable found = (source : Text) → found ≡ some source → is_abs source ≡ false

pub data IsDataRoot (found : Option Text) (configured : Text) : Option Text → Type 0 where
  from_mounts :
      {source : Text}
      → found ≡ some source
      → is_abs source ≡ true
      → IsDataRoot found configured (some source)
  from_configuration :
      IsUnusable found → is_abs configured ≡ true → IsDataRoot found configured (some configured)
  no_root : IsUnusable found → is_abs configured ≡ false → IsDataRoot found configured none

configured_root_lem :
    (found : Option Text) (configured : Text)
    → IsUnusable found
    → IsDataRoot found configured (configured_root configured)
configured_root_lem found configured h = elim (Bool-cases (is_abs configured)) [
  | inl e ↦ rw e (from_configuration h e)
  | inr e ↦ rw e (no_root h e)
]

-- The data root is that of the mounts where it is absolute, else the configured one where that is
-- absolute; where neither is, there is an error.
pub resolve_host_data_root-IsDataRoot :
    (found : Option Text) (configured : Text)
    → IsDataRoot found configured (resolve_host_data_root found configured)
unfolding resolve_host_data_root
resolve_host_data_root-IsDataRoot none configured =
    elim (Bool-cases (not (is_empty configured) && not (is_abs configured))) [
      | inl e ↦ rw e (no_root (λ source q. cc) (ground arith))
      | inr e ↦ rw e (configured_root_lem none configured (λ source q. cc))
    ]
resolve_host_data_root-IsDataRoot (some source) configured = elim (Bool-cases (is_abs source)) [
  | inl e ↦ rw e (from_mounts refl e)
  | inr e ↦ rw e (
      configured_root_lem (some source) configured
        (λ s q. subst (λ x. is_abs x ≡ false) (some_inj q) e))
]
