-- ===== src/Settings/Access.antt =====
-- `SettingsStore.get_value` and `SettingsStore.set` of
-- src/core/python/core/settingsstore/settingsstore.py.
pub mod Lookup
pub mod Assignment
use common_core.Base
use common_core.Base.Result.{ok, raised}
use common_core.Base.{
  ℕ, zero, suc, ◌+◌, ◌-◌, ◌≡◌, refl, String, Bool, true, false, ◌&&◌, ◌||◌, not, Option, none, some,
  List, [], ◌∷◌, str_eq, ltb, any, if◌then◌else◌,
}
use common_core.Base.Int.{ℤ, pos, negsuc}
use common_core.Settings.Variant.{
  Variant, null, bool, int, float, str, list, dict, Items, nil, item, Fields, end, field,
}
use common_core.Settings.Fields.{get, put}

pub data Error : Type 0 where
  type_error key_error index_error value_error : Error

abbrev pub Result : Type 0 → Type 0
Result A = Base.Result.Result Error A

infixl 10 ◌>>=◌
abbrev pub ◌>>=◌ : {A B : Type 0} → Result A → (A → Result B) → Result B
raised e >>= next = raised e
ok x >>= next = next x

-- A chain that gives a value had a value at its first step.
pub and_then_ok :
    {A B : Type 0} (first : Result A) (next : A → Result B) {y : B}
    → (first >>= next) ≡ ok y
    → (x : A) × (first ≡ ok x) × (next x ≡ ok y)
and_then_ok (raised e) next h = cc
and_then_ok (ok x) next h = (x, refl, h)

-- An element of a path: a dictionary key, or a list index.
pub data Component : Type 0 where
  key : String → Component
  index : ℤ → Component

abbrev pub count_items : Items → ℕ
count_items nil = 0
count_items (item v xs) = suc (count_items xs)

abbrev pub nth : ℕ → Items → Result Variant
nth i nil = raised index_error
nth zero (item v xs) = ok v
nth (suc i) (item v xs) = nth i xs

-- value[i] for a list: a negative index counts from the end
unfoldable pub item_at : Items → ℤ → Result Variant
item_at xs (pos i) = nth i xs
item_at xs (negsuc i) =
    if ltb i (count_items xs) then nth (count_items xs - (i + 1)) xs else raised index_error

or_key_error : Option Variant → Result Variant
or_key_error none = raised key_error
or_key_error (some v) = ok v

-- value[component], with the test that an index meets a list
unfoldable pub subscript : Variant → Component → Result Variant
unfolding item_at or_key_error
subscript (dict d) (key k) = or_key_error (get k d)
subscript (list xs) (index i) = item_at xs i
subscript _ _ = raised type_error

-- `for component in path: value = value[component]`
unfoldable pub descend : Variant → List Component → Result Variant
descend value [] = ok value
descend value (component ∷ path) = do next ← subscript value component; descend next path

-- What `isinstance` tells apart; a `bool` is an `int` too.
pub data PyType : Type 0 where
  none_type bool_type int_type float_type str_type list_type dict_type : PyType

unfoldable pub is_instance : Variant → PyType → Bool
is_instance null none_type = true
is_instance (bool b) bool_type = true
is_instance (bool b) int_type = true
is_instance (int n) int_type = true
is_instance (float b) float_type = true
is_instance (str s) str_type = true
is_instance (list xs) list_type = true
is_instance (dict d) dict_type = true
is_instance _ _ = false

-- The argument `path`: a string, or a sequence.
pub data PathArgument : Type 0 where
  single : String → PathArgument
  sequence : List Component → PathArgument

key_given : Option String → Bool
key_given none = false
key_given (some k) = not (str_eq k "")

path_given : Option PathArgument → Bool
path_given none = false
path_given (some (single s)) = not (str_eq s "")
path_given (some (sequence [])) = false
path_given (some (sequence (c ∷ p))) = true

-- The checks on `key` and `path`, and the path that is followed.
unfoldable pub normalized_path : Option String → Option PathArgument → Result (List Component)
unfolding key_given path_given
normalized_path k p =
    if (key_given k && path_given p) || (not (key_given k) && not (path_given p))
    then raised type_error
    else elim k [
      | some name ↦ ok (key name ∷ [])
      | none ↦ elim p [
        | none ↦ raised value_error
        | some (single s) ↦ ok (key s ∷ [])
        | some (sequence q) ↦ ok q
      ]
    ]

pub record Options : Type 0 where
  pub default : Variant
  pub raise_invalid_type : Bool
  pub raise_missing : Bool

-- The `except` clauses around the descent.
unfoldable pub handle_failure : Options → Error → Result Variant
handle_failure o type_error = if o.raise_invalid_type then raised type_error else ok o.default
handle_failure o key_error = if o.raise_missing then raised key_error else ok o.default
handle_failure o index_error = if o.raise_missing then raised index_error else ok o.default
handle_failure o value_error = raised value_error

abbrev pub is_any_of : List PyType → Variant → Bool
is_any_of types v = any (is_instance v) types

module _ (convert : List PyType → String → Result Variant) where
  invalid_type : Options → Result Variant
  invalid_type o = if o.raise_invalid_type then raised type_error else ok o.default

  -- `return expected_type(value)`, where only a ValueError is caught
  try_convert : Options → List PyType → Variant → Result Variant
  unfolding invalid_type
  try_convert o types (str s) = elim (convert types s) [
    | ok v ↦ ok v
    | raised value_error ↦ invalid_type o
    | raised e ↦ raised e
  ]
  try_convert o types _ = invalid_type o

  unfoldable pub check_type : Options → Option (List PyType) → Variant → Result Variant
  unfolding try_convert any
  check_type o none value = ok value
  check_type o (some types) value =
      if is_any_of types value then ok value else try_convert o types value

  -- `get_value(key, path, expected_type, default, raise_invalid_type, raise_missing)`. The types
  -- of a union are a list; `convert` is the call of that type or union on a string.
  unfoldable pub get_value :
      Fields → Option String → Option PathArgument → Option (List PyType) → Options → Result Variant
  unfolding check_type handle_failure normalized_path descend
  get_value store k p expected o = do
    path ← normalized_path k p
    elim (descend (dict store) path) [
      | ok value ↦ check_type o expected value
      | raised e ↦ handle_failure o e
    ]

-- The loop of `set` over the leading components, and the assignment after it. The loop moves on to
-- a dictionary that it creates, and stays where it is at a dictionary that it finds.
unfoldable pub set_in : Fields → List String → String → Variant → Fields
set_in obj [] k value = put k value obj
set_in obj (element ∷ path) k value = elim (get element obj) [
  | some (dict d) ↦ set_in obj path k value
  | _ ↦ put element (dict (set_in end path k value)) obj
]

-- The argument `key` of `set`: a string, or a sequence of strings.
pub data SetKey : Type 0 where
  name : String → SetKey
  hierarchical : List String → SetKey

-- `path = list(key); key = path.pop()`, none for an empty sequence
unfoldable pub pop_last : List String → Option (List String × String)
pop_last [] = none
pop_last (k ∷ []) = some ([], k)
pop_last (k ∷ j ∷ p) = elim (pop_last (j ∷ p)) [ none ↦ none | some (q, l) ↦ some (k ∷ q, l) ]

-- `set(key, value)`
unfoldable pub set_value : Fields → SetKey → Variant → Result Fields
unfolding set_in pop_last
set_value store (name k) value = ok (set_in store [] k value)
set_value store (hierarchical p) value = elim (pop_last p) [
  | none ↦ raised value_error
  | some (path, k) ↦ ok (set_in store path k value)
]
