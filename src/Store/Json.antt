-- ===== src/Store/Json.antt =====
-- The JSON column `metadata` of package_versions: a map from names to values of any type.
-- What is written as a []string comes back from the database as a []any.
use aurforge.Common.{Text, codes, text_eq, List, [], ◌∷◌, map, Option, none, some, if◌then◌else◌}

pub data Item : Type 0 where
  text : Text → Item
  other_item : Item

pub data Value : Type 0 where
  strings : List Text → Value
  items : List Item → Value
  scalar : Text → Value
  null : Value

abbrev pub Metadata : Type 0
Metadata = List (Text × Value)

-- A []string with no element is nil here, and nil is written as null.
abbrev pub stored_value : Value → Value
stored_value (strings []) = null
stored_value (strings (s ∷ ss)) = items (text s ∷ map text ss)
stored_value v = v

abbrev pub stored : Metadata → Metadata
stored [] = []
stored ((k, v) ∷ m) = (k, stored_value v) ∷ stored m

unfoldable pub metadata_get : Text → Metadata → Option Value
metadata_get key [] = none
metadata_get key ((k, v) ∷ m) = if text_eq k key then some v else metadata_get key m

item_names : List Item → List Text
item_names [] = []
item_names (other_item ∷ rest) = item_names rest
item_names (text [] ∷ rest) = item_names rest
item_names (text (c ∷ s) ∷ rest) = (c ∷ s) ∷ item_names rest

value_names : Option Value → List Text
unfolding item_names
value_names (some (strings names)) = names
value_names (some (items list)) = item_names list
value_names _ = []

unfoldable pub split_packages_from_metadata : Metadata → List Text
unfolding metadata_get value_names
split_packages_from_metadata metadata = value_names (metadata_get (codes "split_packages") metadata)
