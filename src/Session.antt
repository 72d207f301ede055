-- ===== src/Session.antt =====
-- A connection to the database as the program sees it through the ent client. Each call of the
-- client may fail, and the clock moves between two readings of it: both come from the
-- environment `Env`, by the number of calls made so far. Inside a transaction the calls act on
-- working copies of the tables; a commit publishes them and a rollback drops them.

pub mod Ensures
pub mod Effects
use aurforge.Common.{
  ℕ, ◌+◌, Text, Bool, true, false, List, [], ◌∷◌, ◌++◌, not, Option, none, some, if◌then◌else◌,
}
use aurforge.Store.{Instant, Tables, Identities}

pub data Error : Type 0 where
  not_found not_singular constraint invalid_value : Error
  driver : ℕ → Error
  unmanaged_package : Text → Error
  build_running : Text → ℕ → Error
  file_error : ℕ → Error
  no_package_files : Error
  import_failed operation_failed invalid_cpu_cap : Error
  invalid_source_path fatal : Text → Error
  panicked : Error

pub data Result {ℓ} (A : Type ℓ) : Type ℓ where
  ok : A → Result A
  err : Error → Result A

-- What the program does outside the database. A path is named by the expression that builds it.
pub data Effect : Type 0 where
  repo_remove : List Text → Effect
  remove_repo_file : Text → Effect
  remove_staging : ℕ → Effect
  remove_log : ℕ → Effect
  remove_sources : Text → Text → Effect
  make_target copy_source move_source make_readable : Text → Effect
  make_directory check_present give_to_builder create_log : Text → Effect
  docker_run : List Text → Effect
  run_updater : Text → Effect
  print : Text → Effect
  post : Text → List (Text × Text) → Text → Effect
  make_repo : Effect
  copy_to_repo : ℕ → Text → Effect
  repo_add : List Text → Effect

-- What is not under the program's control: which of the calls fail, whether a file that is looked
-- for is absent, and what the clock shows.
pub record Env : Type 0 where
  pub fails : ℕ → Bool
  pub absent : ℕ → Bool
  pub clock : ℕ → Instant

pub record Session : Type 0 where
  pub committed : Tables
  pub working : Tables
  pub identities : Identities
  pub effects : List Effect
  pub calls : ℕ

abbrev pub M {ℓ} : Type ℓ → Type ℓ
M A = Session → Result A × Session

module _ {ℓ κ} {A : Type ℓ} {B : Type κ} where
  abbrev pub continue : Result A → (A → M B) → M B
  continue (ok a) f s = f a s
  continue (err e) f s = (err e, s)

  infixl 10 ◌>>=◌ ◌>>◌
  abbrev pub ◌>>=◌ : M A → (A → M B) → M B
  ◌>>=◌ m f s = let (r, s') = m s in continue r f s'

  abbrev pub ◌>>◌ : M A → M B → M B
  ◌>>◌ m k s = let (r, s') = m s in continue r (λ _. k) s'

module _ {ℓ} {A : Type ℓ} where
  abbrev pub pure : A → M A
  pure a s = (ok a, s)

  abbrev pub raise : Error → M A
  raise e s = (err e, s)

  -- `value, err := m`, with the error left for the code that follows to look at.
  abbrev pub attempt : M A → M (Result A)
  attempt m s = let (r, s') = m s in (ok r, s')

abbrev pub tick : Session → Session
tick s = record s { calls = s.calls + 1 }

-- The number of calls so far, by which what is found outside may change.
unfoldable pub moment : M ℕ
moment s = (ok s.calls, tick s)

module _ (env : Env) where
  -- A command or a file operation; the value says whether it succeeded.
  unfoldable pub perform : Effect → M Bool
  perform e s = (
    ok (not (env.fails s.calls)),
    record s { effects = s.effects ++ e ∷ []; calls = s.calls + 1 },
  )

  -- os.IsNotExist of what os.Stat returned.
  unfoldable pub is_absent : M Bool
  is_absent s = (ok (env.absent s.calls), tick s)

  -- time.Now()
  unfoldable pub now : M Instant
  now s = (ok (env.clock s.calls), tick s)

  -- client.Tx(ctx)
  unfoldable pub begin : M (Unit {0})
  begin s =
      if env.fails s.calls
      then (err (driver s.calls), tick s)
      else (ok tt, record s { working = s.committed; calls = s.calls + 1 })

  -- tx.Commit(): a commit that fails leaves the tables as they were before the transaction.
  unfoldable pub commit : M (Unit {0})
  commit s =
      if env.fails s.calls
      then (err (driver s.calls), record s { working = s.committed; calls = s.calls + 1 })
      else (ok tt, record s { committed = s.working; calls = s.calls + 1 })

  module _ {ℓ} {A : Type ℓ} where
    -- A query inside the transaction.
    unfoldable pub query : (Tables → Result A) → M A
    query q s = if env.fails s.calls then (err (driver s.calls), tick s) else (q s.working, tick s)

    -- A query on the client, outside any transaction.
    unfoldable pub client_query : (Tables → Result A) → M A
    client_query q s =
        if env.fails s.calls then (err (driver s.calls), tick s) else (q s.committed, tick s)

  -- A statement that changes rows of the transaction's tables.
  unfoldable pub execute : (Tables → Result Tables) → M (Unit {0})
  execute f s = if env.fails s.calls then (err (driver s.calls), tick s) else elim (f s.working) [
    | ok t ↦ (ok tt, record s { working = t; calls = s.calls + 1 })
    | err e ↦ (err e, tick s)
  ]

  -- An insertion: the identity column gives the row its id, also where a constraint refuses it.
  unfoldable pub insert :
      {A : Type 0}
      → (Identities → ℕ)
      → (Identities → Identities)
      → (ℕ → Tables → Result (A × Tables))
      → M A
  insert next advance f s =
      if env.fails s.calls
      then (err (driver s.calls), tick s)
      else elim (f (next s.identities) s.working) [
        | ok (a, t) ↦
            (ok a, record s { working = t; identities = advance s.identities; calls = s.calls + 1 })
        | err e ↦ (err e, record s { identities = advance s.identities; calls = s.calls + 1 })
      ]

  -- A statement on the client, a transaction of its own.
  unfoldable pub client_execute : (Tables → Result Tables) → M (Unit {0})
  client_execute f s =
      if env.fails s.calls then (err (driver s.calls), tick s) else elim (f s.committed) [
        | ok t ↦ (ok tt, record s { committed = t; calls = s.calls + 1 })
        | err e ↦ (err e, tick s)
      ]

  -- An insertion on the client, a transaction of its own.
  unfoldable pub client_insert :
      {A : Type 0}
      → (Identities → ℕ)
      → (Identities → Identities)
      → (ℕ → Tables → Result (A × Tables))
      → M A
  client_insert next advance f s =
      if env.fails s.calls
      then (err (driver s.calls), tick s)
      else elim (f (next s.identities) s.committed) [
        | ok (a, t) ↦ (
          ok a,
          record s { committed = t; identities = advance s.identities; calls = s.calls + 1 },
        )
        | err e ↦ (err e, record s { identities = advance s.identities; calls = s.calls + 1 })
      ]

-- tx.Rollback(), whose error is dropped everywhere.
abbrev pub rollback : M (Unit {0})
rollback s = (ok tt, record s { working = s.committed; calls = s.calls + 1 })

module _ {ℓ} {A : Type ℓ} where
  abbrev pub settle : Result A → M A
  settle (ok a) s = (ok a, s)
  settle (err e) s = (err e, (rollback s).1)

  -- `if err != nil { _ = tx.Rollback(); return nil, err }`
  abbrev pub or_rollback : M A → M A
  or_rollback m s = let (r, s') = m s in settle r s'
