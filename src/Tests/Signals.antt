-- ===== src/Tests/Signals.antt =====
-- The signal stores of src/core/python/protobuf/signal and the signal writer of
-- src/core/python/messaging/zmq/protobuf on small stores.
use common_core.Base.Result.{ok}
use common_core.Base.{
  ℕ, ◌≡◌, refl, String, false, none, some, List, [], ◌∷◌, eq_string, eq_option, eq_ℕ, eq_iff, arith,
}
use common_core.Base.Dict.{get}
use common_core.Signals.Message.{
  addition, removal, Message, Descriptor, contains, signal_names, signal_name, mapping_controls,
}
use common_core.Signals.Store.{Slot, callback, payload_to, Result, SignalStore}
use common_core.Signals.Store
use common_core.Signals.Connected.{
  Connection, to_signal, to_data, to_all, connect_each, calls-emit_connected,
}
use common_core.Signals.Writer.{SignalWriter}
use common_core.Signals.Caching.{CachingStore, emit_each, connect_signal}
use common_core.Signals.Caching.History.{cached, cached-emit_each}
use common_core.Signals.Caching.Replay.{connect_signal-replays}
use common_core.Signals.Caching.Mapping.{emit_mapping, emit_map_update}
use common_core.Signals.Caching.Mapping.Derived.{read, read-emit_mapping}
use common_core.Signals.Caching.Mapping.Sync.{read_result, emit_map_update-syncs}

-- A signal `user` with a mapping key, and a signal `time`.
abbrev descriptor : Descriptor
descriptor = record { signals = ("user", 3) ∷ ("time", 4) ∷ []; others = "mapping_key" ∷ [] }

abbrev added : String → ℕ → Message ℕ
added key v = record { selected = some ("user", v); mapping = some (addition, key) }

abbrev removed : String → Message ℕ
removed key = record { selected = some ("user", 0); mapping = some (removal, key) }

abbrev listening : SignalStore ℕ
listening = record {
  slots = ("user", callback 1 ∷ []) ∷ ("*", callback 2 ∷ callback 3 ∷ []) ∷ [];
  complete = false;
  calls = [];
}

abbrev caching : CachingStore ℕ
caching = record {
  base = listening;
  cache = ("user", (some "ann", added "ann" 5) ∷ (some "bob", added "bob" 6) ∷ []) ∷ [];
}

abbrev no_wait : CachingStore ℕ → CachingStore ℕ
no_wait s = s

emit_run :
    (Store.emit (added "ann" 5) listening).calls
    ≡ (callback 1, added "ann" 5) ∷ (callback 2, added "ann" 5) ∷ (callback 3, added "ann" 5) ∷ []
unfolding Store.emit get mapping_controls signal_name
emit_run = refl

-- A slot that connects twice, one for all signals, and one for a signal that does not exist
abbrev connections : List Connection
connections =
    to_all (callback 1)
    ∷ to_signal "user" (callback 2)
    ∷ to_signal "door" (callback 3)
    ∷ to_data "user" 4
    ∷ to_signal "user" (callback 2)
    ∷ to_data "time" 5
    ∷ []

calls-emit_connected_example :
    (Store.emit (added "ann" 5) (connect_each descriptor connections Store.empty_store)).calls
    ≡ (callback 2, added "ann" 5)
      ∷ (payload_to 4 "user", added "ann" 5)
      ∷ (callback 2, added "ann" 5)
      ∷ (callback 1, added "ann" 5)
      ∷ []
unfolding contains signal_names signal_name
calls-emit_connected_example =
    calls-emit_connected descriptor connections (added "ann" 5) "user" refl refl refl

abbrev writer : SignalWriter ℕ
writer = record { write_proto = callback 9; started = false; signal_store = listening }

cached-emit_each_example :
    cached "user"
      (some "bob")
      (emit_each (added "ann" 1 ∷ added "bob" 2 ∷ removed "bob" ∷ []) caching)
    ≡ none
unfolding signal_name mapping_controls get
cached-emit_each_example =
    cached-emit_each "user" (some "bob") (added "ann" 1 ∷ added "bob" 2 ∷ removed "bob" ∷ [])
      caching

connect_signal-replays_example :
    (s' : CachingStore ℕ) × (connect_signal descriptor no_wait "user" (callback 7) caching ≡ ok s')
    × (s'.base.calls ≡ (callback 7, added "ann" 5) ∷ (callback 7, added "bob" 6) ∷ [])
    × (s'.cache ≡ caching.cache)
unfolding get contains signal_names
connect_signal-replays_example =
    connect_signal-replays descriptor no_wait "user" (callback 7) caching refl refl

read-emit_mapping_example :
    read 0 "user" (
      cached "user"
        (some "ann")
        (emit_mapping descriptor no_wait 0 "user" (some "ann") (some 8) none caching))
    ≡ some 8
read-emit_mapping_example =
    read-emit_mapping descriptor no_wait 0 "user" (some "ann") "ann" 8 caching
      (λ e. ground (arith, eq_iff "user" "")) (λ e. ground (arith, eq_iff "ann" ""))

-- Bob is gone, and Ann has another value.
emit_map_update-syncs_example :
    read_result 0 "user"
      (some "bob")
      (emit_map_update descriptor no_wait 0 "user" (("ann", 9) ∷ ("eve", 2) ∷ []) none caching)
    ≡ ok none
unfolding get contains signal_names
emit_map_update-syncs_example =
    emit_map_update-syncs descriptor no_wait 0 "user" (λ e. ground (arith, eq_iff "user" ""))
      (("ann", 9) ∷ ("eve", 2) ∷ []) none caching "bob" refl (refl, (refl, tt))
      ((λ e. ground (arith, eq_iff "ann" "")), ((λ e. ground (arith, eq_iff "eve" "")), tt)) refl
