-- ===== src/Signals/Message.antt =====
-- The `Signal` messages of a signal store, as src/core/python/protobuf/signal/signalstore.py takes them
-- apart.
use common_core.Base.{ℕ, String, Bool, Option, none, some, List, map, any, str_eq, if◌then◌else◌}

-- `MappingAction`: the symbols that the code names, and any other number.
pub data Action : Type 0 where
  no_action addition update removal : Action
  other : ℕ → Action

-- A message: the field of the `oneof` that is set with its value, and the mapping fields where the
-- message type has them.
pub record Message (V : Type 0) : Type 0 where
  pub selected : Option (String × V)
  pub mapping : Option (Action × String)

-- What the store asks of the message descriptor: the fields of the `oneof`, and the other fields.
pub record Descriptor : Type 0 where
  pub signals : List (String × ℕ)
  pub others : List String

-- `signal_names()` with the default filter, which selects every field of the `oneof`
unfoldable pub signal_names : Descriptor → List String
signal_names d = map (λ f. f.0) d.signals

unfoldable pub contains : String → List String → Bool
unfolding any
contains name = any (λ n. str_eq n name)

or_none : String → Option String
or_none key = if str_eq key "" then none else some key

controls_of : Action → String → Action × Option String
unfolding or_none
controls_of (other n) key = (no_action, none)
controls_of action key = (action, or_none key)

module _ {V : Type 0} where
  -- `signal_name(msg)`, where the empty name is false
  unfoldable pub signal_name : Message V → Option String
  signal_name m = elim m.selected [
    | none ↦ none
    | some (name, v) ↦ if str_eq name "" then none else some name
  ]

  -- `_mapping_controls(signal)`
  unfoldable pub mapping_controls : Message V → Action × Option String
  unfolding controls_of
  mapping_controls m = elim m.mapping [
    | none ↦ (no_action, none)
    | some (action, key) ↦ controls_of action key
  ]

  -- `signal_type(mapping_action = action, mapping_key = key, signal_name = value)`: a keyword that
  -- is not passed leaves its field empty, and so does the value None.
  unfoldable pub make_message : String → Option String → Option V → Action → Message V
  make_message name key value action = record {
    selected = elim value [ none ↦ none | some v ↦ some (name, v) ];
    mapping = some (action, elim key [ none ↦ "" | some k ↦ k ]);
  }
