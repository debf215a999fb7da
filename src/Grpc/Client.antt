-- ===== src/Grpc/Client.antt =====
-- The client of a stream of signals: `SignalClient` of
-- src/core/python/messaging/grpc/client/signal_client.py with `ThreadReader` of readers.py.
use common_core.Base.Result.{ok, chain}
use common_core.Base.{String, Bool, true, false, Option, List, [], ◌∷◌, ◌++◌, if◌then◌else◌}
use common_core.Signals.Message.{Message, Descriptor}
use common_core.Signals.Store
use common_core.Signals.Store.{Slot, Filter, Result}
use common_core.Signals.Caching
use common_core.Signals.Caching.{CachingStore}

-- The client, with the filters of the streams that it asked for
pub record Client (V : Type 0) : Type 0 where
  pub signal_store : CachingStore V
  pub active : Bool
  pub requests : List Filter

module _ {V : Type 0} where
  -- `worker(stream, callback)` for the messages of the stream, each with what `active()` tells after
  -- it; the callback is `signal_store.emit`.
  unfoldable pub worker : List (Message V × Bool) → CachingStore V → CachingStore V
  worker [] s = s
  worker ((m, active) ∷ stream) s =
      let more = worker stream (Caching.emit m s) in if active then more else Caching.emit m s

  -- `stop_watching()`: the reader forgets its thread.
  unfoldable pub stop_watching : Client V → Client V
  stop_watching c = record c { active = false }

  abbrev pub disconnect_each : List String → Option Slot → CachingStore V → CachingStore V
  disconnect_each [] slot s = s
  disconnect_each (name ∷ names) slot s =
      disconnect_each names slot (record s { base = (Store.disconnect_signal name slot s.base).0 })

  -- `stop_notify_signals(callback, signals)`
  unfoldable pub stop_notify_signals : Option Slot → List String → Client V → Client V
  stop_notify_signals slot [] c = record c {
    signal_store = record c.signal_store {
      base = (Store.disconnect_all slot c.signal_store.base).0;
    };
  }
  stop_notify_signals slot (name ∷ names) c = record c {
    signal_store = disconnect_each (name ∷ names) slot c.signal_store;
  }

module _ {V : Type 0} (d : Descriptor) (arrive : CachingStore V → CachingStore V) where
  -- `start_watching(watch_all)`
  unfoldable pub start_watching : Bool → Client V → Result (Client V)
  start_watching watch_all c =
      if c.active
      then ok c
      else chain (Store.signal_filter d watch_all c.signal_store.base)
          (λ f. ok (record c { active = true; requests = c.requests ++ f ∷ [] }))

  abbrev connect_signals : Slot → List String → CachingStore V → Result (CachingStore V)
  connect_signals slot [] s = ok s
  connect_signals slot (name ∷ names) s =
      chain (Caching.connect_signal d arrive name slot s) (connect_signals slot names)

  abbrev connect_to : Slot → List String → CachingStore V → Result (CachingStore V)
  connect_to slot [] s = Caching.connect_all d arrive slot s
  connect_to slot (name ∷ names) s = connect_signals slot (name ∷ names) s

  -- `start_notify_signals(callback, signals)`
  unfoldable pub start_notify_signals : Slot → List String → Client V → Result (Client V)
  unfolding start_watching
  start_notify_signals slot names c =
      chain (connect_to slot names c.signal_store)
        (λ s. start_watching true (record c { signal_store = s }))
