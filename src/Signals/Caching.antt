-- ===== src/Signals/Caching.antt =====
-- `CachingSignalStore` of src/core/python/protobuf/signal/cachingsignalstore.py.
pub mod Mapping
pub mod History
pub mod Replay
use common_core.Base.Result.{ok, raised}
use common_core.Base.{
  ℕ, String, Bool, true, false, not, ◌&&◌, ◌||◌, Option, none, some, List, [], ◌∷◌, ◌++◌, map,
  str_eq, if◌then◌else◌, Eq, eq_option, eq_string,
}
use common_core.Base.Dict.{Dict, get, put, remove, map_values}
use common_core.Signals.Message.{
  Action, no_action, addition, update, removal, other, Message, Descriptor, signal_names, contains,
  signal_name, mapping_controls, make_message,
}
use common_core.Signals.Store
use common_core.Signals.Store.{SignalStore, Slot, Result, key_error, emit_to_each}

abbrev pub Key : Type 0
Key = Option String

abbrev pub Cached : Type 0 → Type 0
Cached V = Dict Key (Message V)

pub record CachingStore (V : Type 0) : Type 0 where
  pub base : SignalStore V
  pub cache : Dict String (Cached V)

abbrev pub map_of : {V : Type 0} → Option (Cached V) → Cached V
map_of none = []
map_of (some m) = m

module _ {V : Type 0} where
  abbrev pub empty_cache : CachingStore V
  empty_cache = record { base = Store.empty_store; cache = [] }

  -- What the data map of a signal becomes: `datamap.pop(key, None)` or `datamap[key] = msg`.
  abbrev pub update_map : Action → Key → Message V → Cached V → Cached V
  update_map removal key m d = remove key d
  update_map _ key m d = put key m d

  -- `_update_cache(signal_name, action, key, msg)`
  unfoldable pub update_cache :
      String → Action → Key → Message V → Dict String (Cached V) → Dict String (Cached V)
  update_cache name action key m cache =
      put name (update_map action key m (map_of (get name cache))) cache

  abbrev pub cache_message :
      Option String → Message V → Dict String (Cached V) → Dict String (Cached V)
  cache_message none m cache = cache
  cache_message (some name) m cache =
      let (action, key) = mapping_controls m in update_cache name action key m cache

  unfoldable pub emit : Message V → CachingStore V → CachingStore V
  unfolding update_cache
  emit m s = record { base = Store.emit m s.base; cache = cache_message (signal_name m) m s.cache }

  unfoldable pub emit_each : List (Message V) → CachingStore V → CachingStore V
  emit_each [] s = s
  emit_each (m ∷ ms) s = emit_each ms (emit m s)

-- `name in self.descriptor().fields_by_name`
unfoldable pub is_field : Descriptor → String → Bool
is_field d name = contains name (signal_names d) || contains name d.others

module _ {V : Type 0} where
  -- `self._emit_to(signal_name, slot, signal)` for the items of a data map
  unfoldable pub replay : Slot → Cached V → CachingStore V → CachingStore V
  replay slot [] s = s
  replay slot ((key, m) ∷ items) s =
      replay slot items (record s { base = Store.emit_to slot m s.base })

  unfoldable pub replay_found : Slot → Result (Cached V) × CachingStore V → Result (CachingStore V)
  unfolding replay
  replay_found slot (ok m, s) = ok (replay slot m s)
  replay_found slot (raised e, s) = raised e

-- A reader may wait, without a time limit, for the store to be complete: `arrive` gives the store when
-- such a wait ends, after what other threads emitted meanwhile. While it does not end, the reader has
-- no result.
module _ {V : Type 0} (d : Descriptor) (arrive : CachingStore V → CachingStore V) where
  -- `get_cached_signal_messages(signal_name, wait_complete)`, with the store after the wait
  unfoldable pub messages_of : String → Bool → CachingStore V → Result (Cached V) × CachingStore V
  unfolding is_field
  messages_of name wait s = elim (get name s.cache) [
    | some m ↦ (ok m, s)
    | none ↦
        if is_field d name
        then (let s' = if wait && not s.base.complete then arrive s else s in
            (ok (map_of (get name s'.cache)), s'))
        else (raised key_error, s)
  ]

  -- `emit_cached_to(signal_name, slot)`
  unfoldable pub emit_cached_to : String → Slot → CachingStore V → Result (CachingStore V)
  unfolding messages_of replay_found
  emit_cached_to name slot s = elim s.cache [
    | [] ↦ ok s
    | x ∷ c ↦ replay_found slot (messages_of name true s)
  ]

  unfoldable pub connect_signal : String → Slot → CachingStore V → Result (CachingStore V)
  unfolding emit_cached_to
  connect_signal name slot s = elim (Store.connect_signal d name slot s.base) [
    | raised e ↦ raised e
    | ok b ↦ emit_cached_to name slot (record s { base = b })
  ]

  emit_each_cached_to : List String → Slot → CachingStore V → Result (CachingStore V)
  unfolding emit_cached_to
  emit_each_cached_to [] slot s = ok s
  emit_each_cached_to (name ∷ names) slot s = elim (emit_cached_to name slot s) [
    | raised e ↦ raised e
    | ok s' ↦ emit_each_cached_to names slot s'
  ]

  unfoldable pub connect_all : Slot → CachingStore V → Result (CachingStore V)
  unfolding emit_each_cached_to
  connect_all slot s =
      emit_each_cached_to (signal_names d) slot (record s { base = Store.connect_all slot s.base })
