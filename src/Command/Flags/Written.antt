-- ===== src/Command/Flags/Written.antt =====
-- The arguments of add of cmd/aurforge/main.go, written and read back.
use aurforge.Common.{
  ℤ, atoi, Text, List, [], ◌∷◌, none, some, ◌≡◌, ◌↔◌, Option-cases, ◌⊎◌, inl, inr, refl, sym, ◌∙◌,
  ap, subst, ◌++◌, ◌≢◌, codes, text_eq, text_eq→eq, text_eq_refl, false≢true, true, false,
  Bool-cases,
}
use aurforge.Session.{Error}
use aurforge.Command.Flags.{
  Flag, yes_flag, local_flag, select_flag, query_part, flag_of, AddArgs, with_yes, with_local,
  with_select, with_part, parsed, refused, missing_path, missing_index, not_a_number, parse_add,
}

-- How each kind of argument is spelled; a part of a query is what is none of the options.
abbrev pub Spells : Flag → Text → Type 0
Spells yes_flag arg = (arg ≡ codes "--yes") ⊎ (arg ≡ codes "-y")
Spells local_flag arg = (arg ≡ codes "--local") ⊎ (arg ≡ codes "-l")
Spells select_flag arg = arg ≡ codes "--select"
Spells query_part arg =
    (arg ≢ codes "--yes")
    × (arg ≢ codes "-y")
    × (arg ≢ codes "--local")
    × (arg ≢ codes "-l")
    × (arg ≢ codes "--select")

-- One option or one part of the query, in one of the ways in which it can be written.
pub data Item : Type 0 where
  yes_item : (arg : Text) → Spells yes_flag arg → Item
  local_item : (arg path : Text) → Spells local_flag arg → Item
  select_item : (arg number : Text) (n : ℤ) → Spells select_flag arg → atoi number ≡ some n → Item
  part_item : (part : Text) → Spells query_part part → Item

abbrev pub written : List Item → List Text
written [] = []
written (yes_item arg f ∷ items) = arg ∷ written items
written (local_item arg path f ∷ items) = arg ∷ path ∷ written items
written (select_item arg number n f e ∷ items) = arg ∷ number ∷ written items
written (part_item part f ∷ items) = part ∷ written items

-- What the items mean, the last one of an option before the others.
abbrev pub meant : List Item → AddArgs → AddArgs
meant [] a = a
meant (yes_item arg f ∷ items) a = meant items (record a { yes = true })
meant (local_item arg path f ∷ items) a = meant items (record a { local_dir = path })
meant (select_item arg number n f e ∷ items) a = meant items (record a { select_index = n })
meant (part_item part f ∷ items) a =
    meant items (record a { query_parts = a.query_parts ++ part ∷ [] })

differs : (a b : Text) → text_eq a b ≡ false → a ≢ b
differs a b h e = false≢true (sym h ∙ ap (λ x. text_eq x b) e ∙ text_eq_refl b)

differ-test : (a b : Text) → a ≢ b → text_eq a b ≡ false
differ-test a b n = elim (Bool-cases (text_eq a b)) [
  | inl e ↦ absurd (n (text_eq→eq a b e))
  | inr e ↦ e
]

-- The test of each argument decides its spelling.
flag_of-Spells : (arg : Text) → Spells (flag_of arg) arg
unfolding flag_of
flag_of-Spells arg = elim (Bool-cases (text_eq arg (codes "--yes"))) [
  | inl e ↦ rw e (inl (text_eq→eq arg _ e))
  | inr e ↦ elim (Bool-cases (text_eq arg (codes "-y"))) [
    | inl f ↦ rw (e, f) (inr (text_eq→eq arg _ f))
    | inr f ↦ elim (Bool-cases (text_eq arg (codes "--local"))) [
      | inl g ↦ rw (e, f, g) (inl (text_eq→eq arg _ g))
      | inr g ↦ elim (Bool-cases (text_eq arg (codes "-l"))) [
        | inl h ↦ rw (e, f, g, h) (inr (text_eq→eq arg _ h))
        | inr h ↦ elim (Bool-cases (text_eq arg (codes "--select"))) [
          | inl i ↦ rw (e, f, g, h, i) (text_eq→eq arg _ i)
          | inr i ↦
              rw (e, f, g, h, i)
                (
                  differs arg _ e,
                  differs arg _ f,
                  differs arg _ g,
                  differs arg _ h,
                  differs arg _ i,
                )
        ]
      ]
    ]
  ]
]

part-flag_of : (arg : Text) → Spells query_part arg → flag_of arg ≡ query_part
unfolding flag_of
part-flag_of arg (a, b, c, d, e) =
    rw
      (
        differ-test arg _ a,
        differ-test arg _ b,
        differ-test arg _ c,
        differ-test arg _ d,
        differ-test arg _ e,
      )
      refl

Spells-flag_of : (f : Flag) (arg : Text) → Spells f arg → flag_of arg ≡ f
unfolding flag_of text_eq
Spells-flag_of yes_flag arg (inl e) = ap flag_of e
Spells-flag_of yes_flag arg (inr e) = ap flag_of e
Spells-flag_of local_flag arg (inl e) = ap flag_of e
Spells-flag_of local_flag arg (inr e) = ap flag_of e
Spells-flag_of select_flag arg e = ap flag_of e
Spells-flag_of query_part arg n = part-flag_of arg n

-- An argument without a value of its own leaves the others to the loop.
parse_add-yes :
    (arg : Text) (rest : List Text) (a : AddArgs)
    → flag_of arg ≡ yes_flag
    → parse_add (arg ∷ rest) a ≡ parse_add rest (with_yes a)
unfolding parse_add
parse_add-yes arg [] a f = rw (parse_add, f) refl
parse_add-yes arg (value ∷ rest) a f = rw (parse_add, f) refl

parse_add-part :
    (arg : Text) (rest : List Text) (a : AddArgs)
    → flag_of arg ≡ query_part
    → parse_add (arg ∷ rest) a ≡ parse_add rest (with_part a arg)
unfolding parse_add
parse_add-part arg [] a f = rw (parse_add, f) refl
parse_add-part arg (value ∷ rest) a f = rw (parse_add, f) refl

parse_add-local :
    (arg path : Text) (rest : List Text) (a : AddArgs)
    → flag_of arg ≡ local_flag
    → parse_add (arg ∷ path ∷ rest) a ≡ parse_add rest (with_local a path)
unfolding parse_add
parse_add-local arg path rest a f = rw (parse_add, f) refl

parse_add-select :
    (arg number : Text) (n : ℤ) (rest : List Text) (a : AddArgs)
    → flag_of arg ≡ select_flag
    → atoi number ≡ some n
    → parse_add (arg ∷ number ∷ rest) a ≡ parse_add rest (with_select a n)
unfolding parse_add
parse_add-select arg number n rest a f e = rw (parse_add, f, e) refl

-- The three refusals.
parse_add-no_path :
    (arg : Text) (a : AddArgs)
    → flag_of arg ≡ local_flag
    → parse_add (arg ∷ []) a ≡ refused missing_path
unfolding parse_add
parse_add-no_path arg a f = rw (parse_add, f) refl

parse_add-no_index :
    (arg : Text) (a : AddArgs)
    → flag_of arg ≡ select_flag
    → parse_add (arg ∷ []) a ≡ refused missing_index
unfolding parse_add
parse_add-no_index arg a f = rw (parse_add, f) refl

parse_add-no_number :
    (arg number : Text) (rest : List Text) (a : AddArgs)
    → flag_of arg ≡ select_flag
    → atoi number ≡ none
    → parse_add (arg ∷ number ∷ rest) a ≡ refused (not_a_number number)
unfolding parse_add
parse_add-no_number arg number rest a f e = rw (parse_add, f, e) refl

parse_add-written :
    (items : List Item) (a : AddArgs) → parse_add (written items) a ≡ parsed (meant items a)
unfolding parse_add
parse_add-written [] a = refl
parse_add-written (yes_item arg f ∷ items) a =
    parse_add-yes arg (written items) a (Spells-flag_of yes_flag arg f)
    ∙ parse_add-written items (with_yes a)
parse_add-written (local_item arg path f ∷ items) a =
    parse_add-local arg path (written items) a (Spells-flag_of local_flag arg f)
    ∙ parse_add-written items (with_local a path)
parse_add-written (select_item arg number n f e ∷ items) a =
    parse_add-select arg number n (written items) a (Spells-flag_of select_flag arg f) e
    ∙ parse_add-written items (with_select a n)
parse_add-written (part_item part f ∷ items) a =
    parse_add-part part (written items) a (Spells-flag_of query_part part f)
    ∙ parse_add-written items (with_part a part)

Flag-cases : (f : Flag) → (f ≡ yes_flag) ⊎ (f ≡ local_flag) ⊎ (f ≡ select_flag) ⊎ (f ≡ query_part)
Flag-cases yes_flag = inl refl
Flag-cases local_flag = inr (inl refl)
Flag-cases select_flag = inr (inr (inl refl))
Flag-cases query_part = inr (inr (inr refl))

-- The arguments are written items that mean `b` to one who has read `a`.
pub record IsRead (args : List Text) (a b : AddArgs) : Type 0 where
  pub items : List Item
  pub spelled : written items ≡ args
  pub meaning : meant items a ≡ b

and_item :
    {args rest : List Text} {a c b : AddArgs} (item : Item)
    → ((items : List Item) → written items ≡ rest → written (item ∷ items) ≡ args)
    → ((items : List Item) → meant (item ∷ items) a ≡ meant items c)
    → IsRead rest c b
    → IsRead args a b
and_item item spells means r = record {
  items = item ∷ r.items;
  spelled = spells r.items r.spelled;
  meaning = means r.items ∙ r.meaning;
}

parsed_injective : {a b : AddArgs} → parsed a ≡ parsed b → a ≡ b
parsed_injective e = cc

not_refused : {e : Error} {a : AddArgs} → refused e ≡ parsed a → ⊥
not_refused h = cc

parse_add-nil : (a : AddArgs) → parse_add [] a ≡ parsed a
unfolding parse_add
parse_add-nil a = refl

mutual
  parse_add-IsRead :
      (args : List Text) (a b : AddArgs) → parse_add args a ≡ parsed b → IsRead args a b
  parse_add-IsRead [] a b h = record {
    items = [];
    spelled = refl;
    meaning = parsed_injective (sym (parse_add-nil a) ∙ h);
  }
  parse_add-IsRead (arg ∷ rest) a b h = elim (Flag-cases (flag_of arg)) [
    | inl f ↦
        and_item (yes_item arg (subst (λ k. Spells k arg) f (flag_of-Spells arg)))
          (λ items e. ap (λ l. arg ∷ l) e) (λ items. refl)
          (parse_add-IsRead rest (with_yes a) b (sym (parse_add-yes arg rest a f) ∙ h))
    | inr (inl f) ↦ local-IsRead arg rest a b f h
    | inr (inr (inl f)) ↦ select-IsRead arg rest a b f h
    | inr (inr (inr f)) ↦
        and_item (part_item arg (subst (λ k. Spells k arg) f (flag_of-Spells arg)))
          (λ items e. ap (λ l. arg ∷ l) e) (λ items. refl)
          (parse_add-IsRead rest (with_part a arg) b (sym (parse_add-part arg rest a f) ∙ h))
  ]

  local-IsRead :
      (arg : Text) (rest : List Text) (a b : AddArgs)
      → flag_of arg ≡ local_flag
      → parse_add (arg ∷ rest) a ≡ parsed b
      → IsRead (arg ∷ rest) a b
  local-IsRead arg [] a b f h = absurd (not_refused (sym (parse_add-no_path arg a f) ∙ h))
  local-IsRead arg (path ∷ rest) a b f h =
      and_item (local_item arg path (subst (λ k. Spells k arg) f (flag_of-Spells arg)))
        (λ items e. ap (λ l. arg ∷ path ∷ l) e) (λ items. refl)
        (parse_add-IsRead rest (with_local a path) b (sym (parse_add-local arg path rest a f) ∙ h))

  select-IsRead :
      (arg : Text) (rest : List Text) (a b : AddArgs)
      → flag_of arg ≡ select_flag
      → parse_add (arg ∷ rest) a ≡ parsed b
      → IsRead (arg ∷ rest) a b
  select-IsRead arg [] a b f h = absurd (not_refused (sym (parse_add-no_index arg a f) ∙ h))
  select-IsRead arg (number ∷ rest) a b f h = elim (Option-cases (atoi number)) [
    | inl e ↦ absurd (not_refused (sym (parse_add-no_number arg number rest a f e) ∙ h))
    | inr (n, e) ↦
        and_item (select_item arg number n (subst (λ k. Spells k arg) f (flag_of-Spells arg)) e)
          (λ items q. ap (λ l. arg ∷ number ∷ l) q) (λ items. refl)
          (parse_add-IsRead rest (with_select a n) b
            (sym (parse_add-select arg number n rest a f e) ∙ h))
  ]

-- The loop of add accepts exactly the options and the parts of a query, in any order and in each of
-- their spellings, and reads them as what they mean; of an option that is given twice the last
-- one counts.
pub parse_add_iff :
    (args : List Text) (a b : AddArgs) → (parse_add args a ≡ parsed b) ↔ IsRead args a b
parse_add_iff args a b = (
  parse_add-IsRead args a b,
  λ r. ap (λ l. parse_add l a) (sym r.spelled) ∙ parse_add-written r.items a ∙ ap parsed r.meaning,
)
