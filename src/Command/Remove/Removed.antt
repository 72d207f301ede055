-- ===== src/Command/Remove/Removed.antt =====
-- remove of cmd/aurforge/main.go: what it does to the tables.
use aurforge.Common.{ℕ, Text, Bool, true, false, List, [], ◌∷◌, Option, ◌≡◌, refl, sym, ◌∙◌, subst}
use aurforge.Store.{Tables}
use aurforge.Session.{Env, Session}
use aurforge.Session.Ensures.{
  Ensures, Ensures-bind, Ensures-pure, Ensures-raise, Ensures-weaken-failure,
}
use aurforge.Remove.{remove_package}
use aurforge.Remove.Outcome.{IsRemoved, remove_package-IsRemoved}
use aurforge.Command.Flags.{parse_remove}
use aurforge.Command.Output.Quiet.{Same, print_line_lem, Answer, ask_lem}
use aurforge.Command.Remove.{question, remove_if, remove_named, remove_one, remove}

-- How remove ends without an error, for the arguments that it reads: there is one name, and the
-- operator has declined, or the operator or `--yes` has agreed and the package is removed.
pub data IsSettled (line : ℕ → Option Text) (agreed : Bool) (names : List Text)
    (before after : Tables) : Type 0 where
  declined :
      (name : Text)
      → names ≡ name ∷ []
      → Answer line agreed false
      → after ≡ before
      → IsSettled line agreed names before after
  removed :
      (name : Text)
      → names ≡ name ∷ []
      → Answer line agreed true
      → IsRemoved before after name
      → IsSettled line agreed names before after

module _ (env : Env) (line : ℕ → Option Text) where
  abbrev Settled : Bool × List Text → Tables → Session → Type 0
  Settled p before t = IsSettled line p.0 p.1 before t.committed

  remove_if_lem :
      (name : Text) (agreed answer : Bool) (before : Tables) (s : Session)
      → Answer line agreed answer
      → Same env before s
      → Ensures
          (remove_if env line name answer)
          s
          (λ _. Settled (agreed, name ∷ []) before)
          (Same env before)
  unfolding remove_if
  remove_if_lem name agreed false before s y h = Ensures-pure tt s (declined name refl y h)
  remove_if_lem name agreed true before s y h =
      Ensures-bind _ _ s (λ _ t. IsRemoved before t.committed name)
        (λ _. Settled (agreed, name ∷ []) before)
        (Ensures-weaken-failure _ s (remove_package-IsRemoved env name s)
          (λ r gone. subst (λ b. IsRemoved b (remove_package env name s).1.committed name) h gone)
          (λ same. same ∙ h))
        λ r t gone.
          Ensures-weaken-failure _ t (print_line_lem env {F = Same env before} _ t)
            (λ _ same. removed name refl y (subst (λ u. IsRemoved before u name) (sym same) gone))
            (λ k. k)

  remove_one_lem :
      (p : Bool × List Text) (s : Session)
      → Ensures (remove_one env line p) s (λ _. Settled p s.committed) (Same env s.committed)
  unfolding remove_one remove_named
  remove_one_lem (agreed, []) s = Ensures-raise _ s refl
  remove_one_lem (agreed, name ∷ other ∷ names) s = Ensures-raise _ s refl
  remove_one_lem (agreed, name ∷ []) s =
      Ensures-bind _ _ s _ (λ _. Settled (agreed, name ∷ []) s.committed)
        (ask_lem env s.committed line (question name) agreed s refl)
        λ answer t (y, h). remove_if_lem name agreed answer s.committed t y h

  -- Without an error remove has read one name, and then the operator has declined and no table has
  -- changed, or the operator or --yes has agreed and the package of that name is removed; with an
  -- error no table has changed.
  pub remove-IsSettled :
      (args : List Text) (s : Session)
      → Ensures
          (remove env line args)
          s
          (λ _ t.
            IsSettled line
              (parse_remove args false []).0
              (parse_remove args false []).1
              s.committed
              t.committed)
          (λ t. t.committed ≡ s.committed)
  unfolding remove
  remove-IsSettled [] s = Ensures-raise _ s refl
  remove-IsSettled (arg ∷ args) s = remove_one_lem (parse_remove (arg ∷ args) false []) s
