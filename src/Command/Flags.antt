-- ===== src/Command/Flags.antt =====
-- The arguments of main, add and remove of cmd/aurforge/main.go.
pub mod Written
use aurforge.Common.{
  ℤ, negsuc, atoi, ℕ, Text, codes, text_eq, Bool, true, false, ◌||◌, List, [], ◌∷◌, ◌++◌, Option,
  none, some, if◌then◌else◌,
}
use aurforge.Session.{Error, fatal}

-- What main does: roles that run until they are stopped, commands, or the usage.
pub data Dispatch : Type 0 where
  usage controller scheduler worker publisher status : Dispatch
  add remove : List Text → Dispatch

unfoldable pub dispatch_command : Text → List Text → Dispatch
unfolding text_eq
dispatch_command name args =
    if text_eq name (codes "controller")
    then controller
    else if text_eq name (codes "scheduler")
    then scheduler
    else if text_eq name (codes "worker")
    then worker
    else if text_eq name (codes "publisher")
    then publisher
    else if text_eq name (codes "add") || text_eq name (codes "update")
    then add args
    else if text_eq name (codes "status")
    then status
    else if text_eq name (codes "remove")
    then remove args
    else usage

-- os.Args behind the name of the program.
unfoldable pub dispatch : List Text → Dispatch
unfolding dispatch_command
dispatch [] = usage
dispatch (name ∷ args) = dispatch_command name args

-- What an argument of add is.
pub data Flag : Type 0 where
  yes_flag local_flag select_flag query_part : Flag

unfoldable pub flag_of : Text → Flag
unfolding text_eq
flag_of arg =
    if text_eq arg (codes "--yes") || text_eq arg (codes "-y")
    then yes_flag
    else if text_eq arg (codes "--local") || text_eq arg (codes "-l")
    then local_flag
    else if text_eq arg (codes "--select")
    then select_flag
    else query_part

pub record AddArgs : Type 0 where
  pub yes : Bool
  pub local_dir : Text
  pub select_index : ℤ
  pub query_parts : List Text

abbrev pub no_args : AddArgs
no_args = record { yes = false; local_dir = []; select_index = negsuc 0; query_parts = [] }

pub data Parsed {ℓ} (A : Type ℓ) : Type ℓ where
  parsed : A → Parsed A
  refused : Error → Parsed A

abbrev pub missing_path : Error
missing_path = fatal (codes "--local requires a path")

abbrev pub missing_index : Error
missing_index = fatal (codes "--select requires an index")

abbrev pub not_a_number : Text → Error
not_a_number text = fatal (codes "strconv.Atoi: " ++ text)

module _ (a : AddArgs) where
  abbrev pub with_yes : AddArgs
  with_yes = record a { yes = true }

  abbrev pub with_local : Text → AddArgs
  with_local path = record a { local_dir = path }

  abbrev pub with_select : ℤ → AddArgs
  with_select n = record a { select_index = n }

  abbrev pub with_part : Text → AddArgs
  with_part part = record a { query_parts = a.query_parts ++ part ∷ [] }

-- The loop of add over its arguments.
unfoldable pub parse_add : List Text → AddArgs → Parsed AddArgs
unfolding flag_of atoi
parse_add [] a = parsed a
parse_add (arg ∷ []) a = elim (flag_of arg) [
  | yes_flag ↦ parsed (with_yes a)
  | local_flag ↦ refused missing_path
  | select_flag ↦ refused missing_index
  | query_part ↦ parsed (with_part a arg)
]
parse_add (arg ∷ value ∷ rest) a = elim (flag_of arg) [
  | yes_flag ↦ parse_add (value ∷ rest) (with_yes a)
  | local_flag ↦ parse_add rest (with_local a value)
  | select_flag ↦ elim (atoi value) [
    | none ↦ refused (not_a_number value)
    | some n ↦ parse_add rest (with_select a n)
  ]
  | query_part ↦ parse_add (value ∷ rest) (with_part a arg)
]

-- The loop of remove: the answer to its question, and the names.
unfoldable pub parse_remove : List Text → Bool → List Text → Bool × List Text
unfolding text_eq
parse_remove [] agreed names = (agreed, names)
parse_remove (arg ∷ args) agreed names =
    elim (text_eq arg (codes "--yes") || text_eq arg (codes "-y")) [
      | true ↦ parse_remove args true names
      | false ↦ parse_remove args agreed (names ++ arg ∷ [])
    ]
