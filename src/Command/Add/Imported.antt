-- ===== src/Command/Add/Imported.antt =====
-- add of cmd/aurforge/main.go: what it does to the tables, on every way out.
use aurforge.Common.{
  ℤ, pos, negsuc, Text, List, [], ◌∷◌, some, none, Option, ℕ, ◌-◌, ◌≤◌, ◌≡◌, refl, sym, ◌∙◌, ap,
  subst,
}
use aurforge.Store.{Tables}
use aurforge.Session.{Error, ok, err, Env, Session, M, moment}
use aurforge.Session.Ensures.{
  Ensures, Ensures-bind, Ensures-pure, Ensures-raise, Ensures-weaken-failure, ok_injective,
}
use aurforge.Config.{Config}
use aurforge.Accept.Chain.{KeepsHistory}
use aurforge.Command.Flags.{AddArgs, Parsed, parsed, refused, no_args, parse_add}
use aurforge.Command.Output.Quiet.{Same, moment-Same, print_line-Same, print_lines-Same}
use aurforge.Command.Add.Chosen.{
  IsChosen, in_range, too_small_or_large, below_zero, select_result-IsChosen,
}
use aurforge.Command.Add.{
  AurResult, Outside, result_lines, select_result, number_of, join_words, choose, add_results,
  add_query, element, add_from, add_parsed, add,
}
use aurforge.Command.Add.Outcome.{
  Added, Broken, IsNumber, of_flag, of_line, untouched, Added-KeepsHistory, Broken-KeepsHistory,
}
use aurforge.Command.Add.Steps.{
  Kept, Goal, silent, or_import_failed_lem, add_local_lem, add_selected_lem,
}

module _ (env : Env) (cfg : Config) (outside : Outside) where
  module _ (a : AddArgs) where
    abbrev Done : Tables → Unit {0} → Session → Type 0
    Done before = Goal env cfg outside a before

    abbrev Failed : Tables → Session → Type 0
    Failed before = Kept env cfg outside a before

    -- The number that is chosen, which is not in range where it is below one.
    abbrev Numbered : ℤ → Type 0
    Numbered i = (n : ℕ) → i ≡ pos n → IsNumber cfg outside a n

    choose_lem :
        (i : ℤ) (results : List AurResult) (before : Tables) (s : Session)
        → a.select_index ≡ i
        → Same env before s
        → Ensures
            (choose env cfg outside i results)
            s
            (λ j t. Numbered j × Same env before t)
            (Failed before)
    unfolding choose
    choose_lem (pos n) results before s q h = Ensures-pure (pos n) s ((λ m e. of_flag (q ∙ e)), h)
    choose_lem (negsuc k) results before s q h =
        Ensures-bind _ _ s (λ _. Same env before) (λ j t. Numbered j × Same env before t)
          (silent env cfg outside a before
            (print_lines-Same env before (result_lines 0 results) s h))
          λ _ s₁ h₁.
            Ensures-bind _ _ s₁ (λ _. Same env before) (λ j t. Numbered j × Same env before t)
              (silent env cfg outside a before (print_line-Same env before _ s₁ h₁))
              λ _ s₂ h₂.
                Ensures-bind moment _ s₂ (λ _. Same env before)
                  (λ j t. Numbered j × Same env before t)
                  (silent env cfg outside a before (moment-Same env before s₂ h₂))
                  λ m s₃ h₃.
                    Ensures-weaken-failure _ s₃
                      (or_import_failed_lem env cfg outside a (number_of (outside.line m)) before s₃
                        h₃)
                      (λ j (e, same).
                        ((λ n r. typed m (outside.line m) refl (e ∙ ap some r)), same))
                      (λ k. k)
      where
        typed :
            {n : ℕ} (m : ℕ) (line : Option Text)
            → outside.line m ≡ line
            → number_of line ≡ some (pos n)
            → IsNumber cfg outside a n
        typed m none p e = cc
        typed m (some line) p e = of_line q p e

    -- The result at a number, counted from one.
    abbrev At : ℤ → List AurResult → AurResult → Type 0
    At i results r = (n : ℕ) × (i ≡ pos n) × (1 ≤ n) × (element (n - 1) results ≡ some r)

    select_result_lem :
        (i : ℤ) (results : List AurResult) (before : Tables) (s : Session)
        → Same env before s
        → Ensures
            (select_result i results)
            s
            (λ r t. At i results r × Same env before t)
            (Failed before)
    select_result_lem i results before s h = chosen i (select_result-IsChosen i results s)
      where
        refusal :
            (i : ℤ) (m : M AurResult) (e : Error)
            → m s ≡ (err e, s)
            → Ensures m s (λ r t. At i results r × Same env before t) (Failed before)
        refusal i m e q = record {
          success = λ a p. let off : err e ≡ ok a = sym (ap (λ x. x.0) q) ∙ p in cc;
          failure = λ e p. untouched (ap (λ x. x.1.committed) q ∙ h);
        }

        chosen :
            (i : ℤ)
            → IsChosen s results i
            → Ensures
                (select_result i results)
                s
                (λ r t. At i results r × Same env before t)
                (Failed before)
        chosen (pos n) (in_range {r = r} low high m f q) = record {
          success = λ b p. (
            (n, refl, low, f ∙ ap some (ok_injective (sym (ap (λ x. x.0) q) ∙ p))),
            ap (λ x. x.1.committed) q ∙ h,
          );
          failure = λ e p. let off : ok r ≡ err e = sym (ap (λ x. x.0) q) ∙ p in cc;
        }
        chosen (pos n) (too_small_or_large o q) =
            refusal (pos n) (select_result (pos n) results) _ q
        chosen (negsuc n) (below_zero q) = refusal (negsuc n) (select_result (negsuc n) results) _ q

    add_results_lem :
        (results : List AurResult) (before : Tables) (s : Session)
        → a.local_dir ≡ []
        → outside.search (join_words a.query_parts) ≡ some results
        → (query : Text) → Same env before s
        → Ensures (add_results env cfg outside a query results) s (Done before) (Failed before)
    unfolding add_results
    add_results_lem [] before s d q query h = Ensures-raise _ s (untouched h)
    add_results_lem (r ∷ rs) before s d q query h =
        Ensures-bind _ _ s _ (Done before) (choose_lem a.select_index (r ∷ rs) before s refl h)
          λ i s₁ (numbered, h₁).
            Ensures-bind _ _ s₁ _ (Done before) (select_result_lem i (r ∷ rs) before s₁ h₁)
              λ selected s₂ ((n, e, low, f), h₂).
                add_selected_lem env cfg outside a selected
                  (λ w resolved. record {
                    no_directory = d;
                    results = r ∷ rs;
                    searched = q;
                    number = n;
                    is_number = numbered n e;
                    counted = low;
                    selected = selected;
                    at_number = f;
                    resolved = resolved;
                  })
                  before s₂ h₂

    add_query_lem :
        (query : Text) (before : Tables) (s : Session)
        → a.local_dir ≡ []
        → join_words a.query_parts ≡ query
        → Same env before s
        → Ensures (add_query env cfg outside a query) s (Done before) (Failed before)
    unfolding add_query
    add_query_lem [] before s d e h = Ensures-raise _ s (untouched h)
    add_query_lem (c ∷ query) before s d e h =
        Ensures-bind _ _ s _ (Done before)
          (or_import_failed_lem env cfg outside a (outside.search (c ∷ query)) before s h)
          λ results t (q, k).
            add_results_lem results before t d (ap outside.search e ∙ q) (c ∷ query) k

    add_from_lem :
        (path : Text) (before : Tables) (s : Session)
        → a.local_dir ≡ path
        → Same env before s
        → Ensures (add_from env cfg outside a path) s (Done before) (Failed before)
    unfolding add_from
    add_from_lem (c ∷ path) before s d h = add_local_lem env cfg outside a c path before s d h
    add_from_lem [] before s d h = add_query_lem (join_words a.query_parts) before s d refl h

  -- Without an error add has read its arguments, and then the operator has declined and no table has
  -- changed, or the operator or --yes has agreed and the package of the directory of --local is
  -- imported, or, where there is none, each package of the graph of a result of the search for the
  -- words of the arguments, in its order: the result at the number of --select, or else at the
  -- number that the operator has typed. With an error no table has changed, or the arguments were
  -- read, the operator or --yes has agreed, and the first packages of that graph are imported.
  pub add-Added :
      (args : List Text) (s : Session)
      → Ensures
          (add env cfg outside args)
          s
          (λ _ t.
            (a : AddArgs) × (parse_add args no_args ≡ parsed a)
            × Added cfg outside a s.committed t.committed)
          (λ t. Broken cfg outside (parse_add args no_args) s.committed t.committed)
  unfolding add
  add-Added [] s = Ensures-raise _ s (untouched refl)
  add-Added (arg ∷ args) s = by_result (parse_add (arg ∷ args) no_args) refl
    where
      by_result :
          (r : Parsed AddArgs)
          → parse_add (arg ∷ args) no_args ≡ r
          → Ensures
              (add_parsed env cfg outside r)
              s
              (λ _ t.
                (a : AddArgs) × (parse_add (arg ∷ args) no_args ≡ parsed a)
                × Added cfg outside a s.committed t.committed)
              (λ t. Broken cfg outside (parse_add (arg ∷ args) no_args) s.committed t.committed)
      by_result (refused e) p = Ensures-raise e s (untouched refl)
      by_result (parsed a) p =
          Ensures-weaken-failure _ s (add_from_lem a a.local_dir s.committed s refl refl)
            (λ _ done_so. (a, p, done_so))
            (λ k.
              subst
                (λ r.
                  Broken cfg outside r s.committed
                    (add_from env cfg outside a a.local_dir s).1.committed)
                (sym p) k)

  -- Whatever its arguments and the answers are and whatever fails, add changes no job but those that
  -- wait, loses no version and no artifact, and each job that was not there before waits or was
  -- skipped.
  pub add-KeepsHistory :
      (args : List Text) (s : Session)
      → Ensures
          (add env cfg outside args)
          s
          (λ _ t. KeepsHistory s.committed t.committed)
          (λ t. KeepsHistory s.committed t.committed)
  add-KeepsHistory args s =
      Ensures-weaken-failure _ s (add-Added args s)
        (λ _ (a, p, done_so). Added-KeepsHistory cfg outside a done_so)
        (λ k. Broken-KeepsHistory cfg outside _ k)
