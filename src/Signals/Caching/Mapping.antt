-- ===== src/Signals/Caching/Mapping.antt =====
-- The mapping signals of src/core/python/protobuf/signal/cachingsignalstore.py: reading the cache, and
-- `emit_mapping` and `emit_map_update`, which bring it in line with given values.
pub mod Derived
pub mod Sync
use common_core.Base.Result.{ok, raised}
use common_core.Base.{
  String, Bool, true, false, not, Option, none, some, List, [], ◌∷◌, str_eq, if◌then◌else◌, Eq,
  eq_option, eq_string,
}
use common_core.Base.Dict.{Dict, get, map_values}
use common_core.Signals.Message.{
  Action, addition, update, removal, Message, Descriptor, make_message,
}
use common_core.Signals.Store.{Result}
use common_core.Signals.Caching.{Key, Cached, CachingStore, emit, messages_of}

is_given : Key → Bool
is_given none = false
is_given (some k) = not (str_eq k "")

module _ {V : Type 0} where
  -- `getattr(message, signal_name)`: a field that is not set reads as an empty value.
  unfoldable pub field_of : V → String → Message V → V
  field_of unset name m = elim m.selected [
    | none ↦ unset
    | some (n, v) ↦ if str_eq n name then v else unset
  ]

  value_under : V → String → Key → Option V → Result (Cached V) → Option V
  unfolding field_of
  value_under unset name key fallback (raised e) = fallback
  value_under unset name key fallback (ok m) = elim (get key m) [
    | none ↦ fallback
    | some x ↦ some (field_of unset name x)
  ]

module _ {V : Type 0} where
  abbrev is_kept : Key → Dict String V → Bool
  is_kept none updated = false
  is_kept (some k) updated = elim (get k updated) [ none ↦ false | some v ↦ true ]

  abbrev or_current : Option V → V → V
  or_current none current = current
  or_current (some empty) current = empty

module _ {V : Type 0} where
  -- No signal is emitted without an action.
  emit_action : String → Key → Option V → Option Action → CachingStore V → CachingStore V
  emit_action name key value none s = s
  emit_action name key value (some a) s = emit (make_message name key value a) s

module _ {V : Type 0} ⦃e : Eq V⦄ where
  -- The table for `mapping_action`, from the value and the cached value.
  unfoldable pub infer_action : Option V → Option V → Option Action
  infer_action none none = none
  infer_action none (some c) = some removal
  infer_action (some v) none = some addition
  infer_action (some v) (some c) = if e.beq v c then none else some update

module _ {V : Type 0} (d : Descriptor) (arrive : CachingStore V → CachingStore V) where
  -- `get_cached_map(signal_name, False)`
  unfoldable pub get_cached_map : V → String → CachingStore V → Result (Dict Key V)
  unfolding messages_of field_of
  get_cached_map unset name s = elim (messages_of d arrive name false s).0 [
    | raised e ↦ raised e
    | ok m ↦ ok (map_values (field_of unset name) m)
  ]

  -- `get_cached_signal(signal_name, mapping_key, wait_complete, fallback)`: the handler of KeyError
  -- stands around both lookups.
  unfoldable pub get_cached_signal : V → String → Key → Bool → Option V → CachingStore V → Option V
  unfolding messages_of value_under
  get_cached_signal unset name key wait fallback s =
      value_under unset name key fallback (messages_of d arrive name wait s).0

  module _ ⦃e : Eq V⦄ where
    chosen_action : V → String → Key → Option V → Option Action → CachingStore V → Option Action
    unfolding get_cached_signal infer_action is_given
    chosen_action unset name key value (some action) s = some action
    chosen_action unset name key value none s =
        if is_given key
        then infer_action value (get_cached_signal unset name key false none s)
        else none

    -- `emit_mapping(signal_name, key, value, action)`
    unfoldable pub emit_mapping :
        V → String → Key → Option V → Option Action → CachingStore V → CachingStore V
    unfolding chosen_action emit_action
    emit_mapping unset name key value action s =
        emit_action name key value (chosen_action unset name key value action s) s

    -- The two loops of `emit_map_update`: over the cached map, and over the updated one.
    unfoldable pub remove_missing :
        V → String → Dict String V → Option V → Dict Key V → CachingStore V → CachingStore V
    remove_missing unset name updated empty [] s = s
    remove_missing unset name updated empty ((key, current) ∷ items) s =
        remove_missing unset name updated empty items (
          if is_kept key updated
          then s
          else emit_mapping unset name key (some (or_current empty current)) (some removal) s)

    unfoldable pub emit_updated : V → String → Dict String V → CachingStore V → CachingStore V
    emit_updated unset name [] s = s
    emit_updated unset name ((key, value) ∷ items) s =
        emit_updated unset name items (emit_mapping unset name (some key) (some value) none s)

    -- `emit_map_update(signal_name, updated_map, empty_value)`
    unfoldable pub emit_map_update :
        V → String → Dict String V → Option V → CachingStore V → Result (CachingStore V)
    unfolding remove_missing emit_updated
    emit_map_update unset name updated empty s = elim (get_cached_map unset name s) [
      | raised f ↦ raised f
      | ok current ↦
          ok (emit_updated unset name updated (remove_missing unset name updated empty current s))
    ]
