-- ===== src/Signals/Store.antt =====
-- `SignalStore` of src/core/python/protobuf/signal/signalstore.py.
use common_core.Base
use common_core.Base.Result.{ok, raised}
use common_core.Base.{
  ℕ, String, Bool, true, false, ◌||◌, Option, none, some, List, [], ◌∷◌, ◌++◌, map, if◌then◌else◌,
  eq_string,
}
use common_core.Base.Dict.{Dict, get, put, remove}
use common_core.Signals.Message.{
  Action, no_action, Message, Descriptor, signal_names, contains, signal_name, mapping_controls,
  make_message,
}

-- A slot: a callback, or the lambda that `connect_signal_data` wraps around one.
pub data Slot : Type 0 where
  callback : ℕ → Slot
  payload_to : ℕ → String → Slot

-- Whether a slot equals a string, as `list.remove` compares them.
abbrev equals_text : Slot → String → Bool
equals_text (callback n) s = false
equals_text (payload_to n f) s = false

-- The store, with the calls that were made to slots.
pub record SignalStore (V : Type 0) : Type 0 where
  pub slots : Dict String (List Slot)
  pub complete : Bool
  pub calls : List (Slot × Message V)

abbrev pub all_signals : String
all_signals = "*"

pub data Failure : Type 0 where
  attribute_error name_error key_error : Failure

abbrev pub Result : Type 0 → Type 0
Result A = Base.Result.Result Failure A

abbrev pub slots_of : Option (List Slot) → List Slot
slots_of none = []
slots_of (some l) = l

-- `list.remove(name)`: none where no element equals the argument
unfoldable pub remove_text : String → List Slot → Option (List Slot)
remove_text name [] = none
remove_text name (slot ∷ slots) =
    let rest = remove_text name slots in
    if equals_text slot name
    then some slots
    else elim rest [ none ↦ none | some l ↦ some (slot ∷ l) ]

module _ {V : Type 0} where
  abbrev pub empty_store : SignalStore V
  empty_store = record { slots = []; complete = false; calls = [] }

  -- `self.slots.setdefault(name, []).append(slot)`
  unfoldable pub add_slot : String → Slot → SignalStore V → SignalStore V
  add_slot name slot s = record s {
    slots = put name (slots_of (get name s.slots) ++ slot ∷ []) s.slots;
  }

  unfoldable pub connect_all : Slot → SignalStore V → SignalStore V
  unfolding add_slot
  connect_all slot s = add_slot all_signals slot s

  unfoldable pub connect_signal :
      Descriptor → String → Slot → SignalStore V → Result (SignalStore V)
  unfolding add_slot
  connect_signal d name slot s =
      if contains name (signal_names d) then ok (add_slot name slot s) else raised attribute_error

  unfoldable pub connect_signal_data :
      Descriptor → String → ℕ → SignalStore V → Result (SignalStore V)
  unfolding connect_signal
  connect_signal_data d name slot s =
      if contains name (signal_names d)
      then connect_signal d name (payload_to slot name) s
      else raised attribute_error

  -- `bool(self.slots.pop(name, None))`
  abbrev pub pop_slots : String → SignalStore V → SignalStore V × Bool
  pop_slots name s = (
    record s { slots = remove name s.slots },
    elim (slots_of (get name s.slots)) [ [] ↦ false | x ∷ l ↦ true ],
  )

  -- The slots that are left, or that KeyError or ValueError was raised.
  keep_removed : String → Option (List Slot) → SignalStore V → SignalStore V × Bool
  keep_removed name none s = (s, false)
  keep_removed name (some l) s = (record s { slots = put name l s.slots }, true)

  -- `disconnect_signal(name, slot)`. The list is asked to remove the name.
  unfoldable pub disconnect_signal : String → Option Slot → SignalStore V → SignalStore V × Bool
  unfolding keep_removed
  disconnect_signal name none s = pop_slots name s
  disconnect_signal name (some slot) s =
      keep_removed name (elim (get name s.slots) [ none ↦ none | some l ↦ remove_text name l ]) s

  unfoldable pub disconnect_all : Option Slot → SignalStore V → SignalStore V × Bool
  unfolding disconnect_signal
  disconnect_all slot s = disconnect_signal all_signals slot s

  unfoldable pub disconnect_signal_data : String → Option ℕ → SignalStore V → SignalStore V
  unfolding disconnect_signal
  disconnect_signal_data name none s = (disconnect_signal name none s).0
  disconnect_signal_data name (some slot) s =
      (disconnect_signal name (some (payload_to slot name)) s).0

  -- `_emit_to`: `safe_invoke` catches what the slot raises.
  abbrev pub emit_to : Slot → Message V → SignalStore V → SignalStore V
  emit_to slot m s = record s { calls = s.calls ++ (slot, m) ∷ [] }

  unfoldable pub emit_to_each : List Slot → Message V → SignalStore V → SignalStore V
  emit_to_each [] m s = s
  emit_to_each (slot ∷ slots) m s = emit_to_each slots m (emit_to slot m s)

  abbrev pub deliver : Option String → Message V → SignalStore V → SignalStore V
  deliver none m s = s
  deliver (some name) m s =
      emit_to_each (slots_of (get all_signals s.slots)) m
        (emit_to_each (slots_of (get name s.slots)) m s)

  abbrev pub set_complete : Action → SignalStore V → SignalStore V
  set_complete no_action s = record s { complete = true }
  set_complete _ s = s

  unfoldable pub emit : Message V → SignalStore V → SignalStore V
  unfolding emit_to_each
  emit m s = set_complete (mapping_controls m).0 (deliver (signal_name m) m s)

  unfoldable pub emit_event : String → V → SignalStore V → SignalStore V
  unfolding emit
  emit_event name value s = emit (record { selected = some (name, value); mapping = none }) s

  -- `emit_mapping(signal_name, key, value, action)`: an action that is None or zero is not passed on.
  unfoldable pub emit_mapping :
      String → Option String → Option V → Action → SignalStore V → SignalStore V
  unfolding emit
  emit_mapping name key value action s = emit (make_message name key value action) s

-- `field_number(fieldname)`, whose body reads a name that is not defined
unfoldable pub field_number : Descriptor → String → Result ℕ
field_number d fieldname = raised name_error

pub record Filter : Type 0 where
  pub polarity : Bool
  pub indices : List ℕ

field_numbers : Descriptor → List String → Result (List ℕ)
unfolding field_number
field_numbers d [] = ok []
field_numbers d (name ∷ names) = elim (field_number d name) [
  | raised e ↦ raised e
  | ok n ↦ elim (field_numbers d names) [ raised e ↦ raised e | ok ns ↦ ok (n ∷ ns) ]
]

is_connected : Option (List Slot) → Bool
is_connected none = false
is_connected (some l) = true

-- `signal_filter(match_all)`. Without the key for all signals every key of `slots` is a name.
unfoldable pub signal_filter : {V : Type 0} → Descriptor → Bool → SignalStore V → Result Filter
unfolding field_numbers is_connected
signal_filter d match_all s =
    if match_all || is_connected (get all_signals s.slots)
    then ok (record { polarity = false; indices = [] })
    else elim (field_numbers d (map (λ f. f.0) s.slots)) [
      | raised e ↦ raised e
      | ok ns ↦ ok (record { polarity = true; indices = ns })
    ]

-- `wait_complete(timeout)`: what it returns, or that it waits, or that it fails. `event` is what the
-- wait for the event with the given time-out returns.
pub data Wait : Type 0 where
  returned : Bool → Wait
  waits : Wait
  fails : Failure → Wait

unfoldable pub wait_complete :
    {V : Type 0} → (ℕ → Bool) → Option ℕ → Option ℕ → SignalStore V → Wait
wait_complete event deadline timeout s = if s.complete then returned true else elim timeout [
  | some t ↦ returned (event t)
  | none ↦ elim deadline [ none ↦ waits | some t ↦ fails name_error ]
]
