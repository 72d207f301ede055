-- ===== src/Command/Output/Quiet.antt =====
-- What the commands print and ask leaves the database alone.
use aurforge.Common.{
  ℕ, Text, codes, Bool, true, false, List, [], ◌∷◌, ◌++◌, Option, none, some, ◌≡◌, refl,
}
use aurforge.Store.{Tables}
use aurforge.Session.{import_failed, Env, Session, moment, perform}
use aurforge.Session.Ensures.{Ensures, Ensures-bind, Ensures-pure, Ensures-raise, Ensures-weaken}
use aurforge.Import.{Preview}
use aurforge.Import.Local.{prompt_confirm}
use aurforge.Command.Output.{
  preview_lines, print_line, print_lines, show_preview, print_unless, answered, ask,
}

-- The answer is that of PromptConfirm to some line that was read.
abbrev pub Answer : (ℕ → Option Text) → Bool → Bool → Type 0
Answer line agreed answer = (n : ℕ) × (prompt_confirm (line n) agreed ≡ some answer)

-- Printing has no error of its own.
pub print_line_lem :
    (env : Env) {F : Session → Type 0} (line : Text) (s : Session)
    → Ensures (print_line env line) s (λ _ t. t.committed ≡ s.committed) F
unfolding print_line perform
print_line_lem env line s = record { success = λ a e. refl; failure = λ e q. cc }

module _ (env : Env) (base : Tables) where
  abbrev pub Same : Session → Type 0
  Same t = t.committed ≡ base

  pub moment-Same : (s : Session) → Same s → Ensures moment s (λ _. Same) Same
  unfolding moment
  moment-Same s h = record { success = λ a e. h; failure = λ e q. cc }

  pub print_line-Same :
      (line : Text) (s : Session) → Same s → Ensures (print_line env line) s (λ _. Same) Same
  unfolding print_line perform
  print_line-Same line s h = record { success = λ a e. h; failure = λ e q. cc }

  pub print_lines-Same :
      (lines : List Text) (s : Session)
      → Same s
      → Ensures (print_lines env lines) s (λ _. Same) Same
  unfolding print_lines
  print_lines-Same [] s h = Ensures-pure tt s h
  print_lines-Same (line ∷ lines) s h =
      Ensures-bind (print_line env line) (λ _. print_lines env lines) s (λ _. Same) (λ _. Same)
        (print_line-Same line s h) λ _ t k. print_lines-Same lines t k

  pub show_preview-Same :
      (preview : Preview) (s : Session)
      → Same s
      → Ensures (show_preview env preview) s (λ _. Same) Same
  unfolding show_preview
  show_preview-Same preview s h = print_lines-Same ([] ∷ preview_lines preview) s h

  print_unless-Same :
      (agreed : Bool) (line : Text) (s : Session)
      → Same s
      → Ensures (print_unless env agreed line) s (λ _. Same) Same
  print_unless-Same true line s h = Ensures-pure tt s h
  print_unless-Same false line s h = print_line-Same line s h

  answered_lem :
      (found : Option Bool) (s : Session)
      → Same s
      → Ensures (answered env found) s (λ answer t. (found ≡ some answer) × Same t) Same
  answered_lem none s h = Ensures-raise import_failed s h
  answered_lem (some answer) s h = Ensures-pure answer s (refl, h)

  pub ask_lem :
      (line : ℕ → Option Text) (prompt : Text) (agreed : Bool) (s : Session)
      → Same s
      → Ensures (ask env line prompt agreed) s (λ answer t. Answer line agreed answer × Same t) Same
  unfolding ask
  ask_lem line prompt agreed s h =
      let Goal = λ (answer : Bool) (t : Session). Answer line agreed answer × Same t in
      Ensures-bind _ _ s (λ _. Same) Goal (print_unless-Same agreed (prompt ++ codes " [Y/n] ") s h)
        λ _ t k.
          Ensures-bind moment (λ n. answered env (prompt_confirm (line n) agreed)) t (λ _. Same)
            Goal (moment-Same t k) λ n u l. answer_at n u l
    where
      answer_at :
          (n : ℕ) (u : Session)
          → Same u
          → Ensures
              (answered env (prompt_confirm (line n) agreed))
              u
              (λ answer t. Answer line agreed answer × Same t)
              Same
      answer_at n u l =
          Ensures-weaken _ u _ (λ answer t. Answer line agreed answer × Same t)
            (answered_lem (prompt_confirm (line n) agreed) u l) (λ answer t (e, k). ((n, e), k))
