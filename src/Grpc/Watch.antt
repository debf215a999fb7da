-- ===== src/Grpc/Watch.antt =====
-- The server's stream of signals: `Watch` of `SignalRequestHandler` in
-- src/core/python/messaging/grpc/request_handler/signal_request_handler.py, a client of
-- `CachingSignalStore`. Its slot is the method `put_nowait` of its queue.
pub mod Kept
pub mod Puts
pub mod Mirror
pub mod Opened
use common_core.Base.Result.{ok, raised}
use common_core.Base.{
  ℕ, String, Bool, true, false, not, Option, none, some, List, [], ◌∷◌, ◌++◌, length, drop, any,
  nat_eq, map, if◌then◌else◌,
}
use common_core.RoundRobin.{Queue, empty_queue, put_nowait}
use common_core.Signals.Message.{Message, Descriptor}
use common_core.Signals.Store
use common_core.Signals.Store.{Slot, callback, payload_to, Filter, Failure}
use common_core.Signals.Caching
use common_core.Signals.Caching.{CachingStore}

-- The numbers of the fields that a filter selects: `polarity == (f.number in indices)`
abbrev pub selects : Filter → ℕ → Bool
selects f n =
    let listed = any (λ i. nat_eq i n) f.indices in if f.polarity then listed else not listed

-- `signal_names(filter)`
unfoldable pub filtered_names : Filter → List (String × ℕ) → List String
filtered_names f [] = []
filtered_names f ((name, n) ∷ fields) =
    let names = filtered_names f fields in if selects f n then name ∷ names else names

-- The slot of a queue
abbrev pub is_slot : ℕ → Slot → Bool
is_slot q (callback n) = nat_eq n q
is_slot q (payload_to n name) = false

-- A stream: the store that it watches, its queue, the messages that found the queue full, and those
-- that it yielded
pub record Watcher (V : Type 0) : Type 0 where
  pub store : CachingStore V
  pub queue : Queue (Message V)
  pub dropped : List (Message V)
  pub yielded : List (Message V)

-- How opening a stream ends: it streams, or an exception of the store or Full ends it.
pub data Opening (V : Type 0) : Type 0 where
  streams : Watcher V → Opening V
  fails : Failure → Watcher V → Opening V
  overflows : Watcher V → Opening V

module _ {V : Type 0} where
  -- `queue.put_nowait(msg)` as a slot: what it raises is caught by the store.
  abbrev pub put_or_drop : Message V → Watcher V → Watcher V
  put_or_drop m w = elim (put_nowait m w.queue) [
    | none ↦ record w { dropped = w.dropped ++ m ∷ [] }
    | some q ↦ record w { queue = q }
  ]

  unfoldable pub put_messages : List (Message V) → Watcher V → Watcher V
  put_messages [] w = w
  put_messages (m ∷ ms) w = put_messages ms (put_or_drop m w)

  -- The messages of the calls to a slot
  unfoldable pub messages_for : ℕ → List (Slot × Message V) → List (Message V)
  messages_for q [] = []
  messages_for q ((slot, m) ∷ calls) =
      let ms = messages_for q calls in if is_slot q slot then m ∷ ms else ms

  -- What the store did in between: its new calls to the slot put messages in the queue.
  unfoldable pub follow : ℕ → CachingStore V → Watcher V → Watcher V
  unfolding put_messages messages_for
  follow q s w =
      put_messages (messages_for q (drop (length w.store.base.calls) s.base.calls))
        (record w { store = s })

  -- A signal of the server
  unfoldable pub emit : ℕ → Message V → Watcher V → Watcher V
  unfolding follow
  emit q m w = follow q (Caching.emit m w.store) w

  -- `queue.get()` and the yield of what it returns
  abbrev pub moved : List (Message V) → Watcher V → Watcher V
  moved [] w = w
  moved (m ∷ ms) w = record w {
    queue = record w.queue { items = ms };
    yielded = w.yielded ++ m ∷ [];
  }

  unfoldable pub yield_next : Watcher V → Watcher V
  yield_next w = moved w.queue.items w

  -- `finally: disconnect_signal(signal_name)`, with the last name of the loop. Without one the name
  -- is not bound.
  unfoldable pub close : Option String → Watcher V → Watcher V × Option Failure
  close none w = (w, some Store.name_error)
  close (some name) w = (
    record w {
      store = record w.store { base = (Store.disconnect_signal name none w.store.base).0 };
    },
    none,
  )

module _ {V : Type 0} (d : Descriptor) (arrive : CachingStore V → CachingStore V) (q : ℕ) where
  -- The empty message ends what was cached.
  abbrev pub end_mark : Message V
  end_mark = record { selected = none; mapping = none }

  abbrev pub mark_end : Option String → Watcher V → Opening V
  mark_end last w = elim (put_nowait end_mark w.queue) [
    | none ↦ overflows (close last w).0
    | some p ↦ streams (record w { queue = p })
  ]

  -- The loop over the names, and the end of the cached messages
  unfoldable pub connect_each : Option String → List String → Watcher V → Opening V
  unfolding follow close
  connect_each last [] w = mark_end last w
  connect_each last (name ∷ names) w =
      elim (Caching.connect_signal d arrive name (callback q) w.store) [
        | raised e ↦ fails e (close (some name) w).0
        | ok s ↦ connect_each (some name) names (follow q s w)
      ]

  -- `Watch(request, context)` up to its first `get`
  unfoldable pub watch : ℕ → Filter → CachingStore V → Opening V
  unfolding connect_each filtered_names
  watch max_queue_size f s =
      connect_each none (filtered_names f d.signals)
        (record { store = s; queue = empty_queue max_queue_size; dropped = []; yielded = [] })
