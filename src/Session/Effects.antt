-- ===== src/Session/Effects.antt =====
-- What an action does outside the database: the effects that it adds, whether it succeeds or not.
use aurforge.Common.{
  ◌≡◌, refl, sym, ◌∙◌, ap, List, [], ◌∷◌, ◌++◌, All, All-append, append-nil, append_assoc, Memᴰ,
  mem-snoc,
}
use aurforge.Session.{Env, Session, Effect, perform}
use aurforge.Session.Ensures.{Ensures}

-- The tables are as before, and each effect that was added has the property.
pub record Does (P : Effect → Type 0) (s t : Session) : Type 0 where
  pub new : List Effect
  pub each : All P new
  pub effects : t.effects ≡ s.effects ++ new
  pub tables : t.committed ≡ s.committed

module _ {P : Effect → Type 0} where
  pub Does-none : (s : Session) → Does P s s
  Does-none s = record { new = []; each = tt; effects = sym (append-nil s.effects); tables = refl }

  pub Does-trans : {s t u : Session} → Does P s t → Does P t u → Does P s u
  Does-trans {s} a b = record {
    new = a.new ++ b.new;
    each = All-append P a.new b.new a.each b.each;
    effects = b.effects ∙ ap (λ l. l ++ b.new) a.effects ∙ append_assoc s.effects a.new b.new;
    tables = b.tables ∙ a.tables;
  }

  -- One effect, behind what was done since `base`.
  pub Does-perform :
      (env : Env) {base : Session} (x : Effect) (s : Session)
      → P x
      → Does P base s
      → Ensures (perform env x) s (λ _ t. Does P base t × Memᴰ x t.effects) (Does P base)
  unfolding perform
  Does-perform env x s p d = record {
    success = λ a e. (
      Does-trans d (record { new = x ∷ []; each = (p, tt); effects = refl; tables = refl }),
      mem-snoc x s.effects,
    );
    failure = λ e h. cc;
  }
