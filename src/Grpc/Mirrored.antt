-- ===== src/Grpc/Mirrored.antt =====
-- The cache of a client against the cache of the server whose signals it watches.
use mathlib.Core.Bool.{false≢true}
use mathlib.Core.List.{append-nil}
use common_core.Base.{
  ℕ, String, ◌≡◌, refl, sym, ap, ◌∙◌, inl, inr, Bool-cases, Bool, true, false, ◌||◌, none, List, [],
  ◌∷◌, ◌++◌, any, map, str_eq, if◌then◌else◌, eq_string,
}
use common_core.Base.Dict.{get}
use common_core.Signals.Message.{Message, Descriptor, signal_names, contains}
use common_core.Signals.Store.{Filter, all_signals, slots_of}
use common_core.Signals.Caching.{Key, CachingStore, empty_cache, emit_each}
use common_core.Signals.Caching.History.{cached}
use common_core.Grpc.Client.{worker}
use common_core.Grpc.Watch.{
  is_slot, selects, filtered_names, Watcher, streams, emit, yield_next, watch,
}
use common_core.Grpc.Watch.Kept.{AllKept, emit_each-AllKept, empty_cache-AllKept}
use common_core.Grpc.Watch.Mirror.{IsConnected, Mirrors, emit-Mirrors, yield_next-Mirrors}
use common_core.Grpc.Watch.Opened.{or_true, OnStream, after_names, connect_each-Mirrors}

-- What happens on a stream: the server emits a signal, and the next message is yielded.
pub data Steps {V : Type 0} (q : ℕ) (w : Watcher V) : Watcher V → Type 0 where
  at_first : Steps q w w
  emitted : {v : Watcher V} → (m : Message V) → Steps q w v → Steps q w (emit q m v)
  yielded : {v : Watcher V} → Steps q w v → Steps q w (yield_next v)

-- The filter selects signals of the descriptor.
filtered_names-contained :
    (f : Filter) (fields : List (String × ℕ)) (name : String)
    → contains name (filtered_names f fields) ≡ true
    → contains name (map (λ g. g.0) fields) ≡ true
unfolding filtered_names contains any
filtered_names-contained f [] name h = h
filtered_names-contained f ((n, i) ∷ fields) name h = elim (Bool-cases (str_eq n name)) [
  | inl e ↦ rw e refl
  | inr e ↦ rw e (filtered_names-contained f fields name (tail (selects f i) e h))
]
  where
    tail :
        (b : Bool)
        → str_eq n name ≡ false
        → any
            (λ k. str_eq k name)
            (if b then n ∷ filtered_names f fields else filtered_names f fields)
          ≡ true
        → any (λ k. str_eq k name) (filtered_names f fields) ≡ true
    tail true e i = rw e at i
    tail false e i = i

contains-after_names :
    (name : String) (names done : List String)
    → contains name (after_names names done) ≡ contains name names || contains name done
unfolding contains any
contains-after_names name [] done = refl
contains-after_names name (n ∷ names) done =
    contains-after_names name names (n ∷ done) ∙ elim (Bool-cases (str_eq n name)) [
      | inl e ↦ rw e (or_true (contains name names))
      | inr e ↦ rw e refl
    ]

module _ {V : Type 0} where
  -- A client that is active throughout emits the messages of its stream.
  abbrev pub all_read : List (Message V) → List (Message V × Bool)
  all_read ms = map (λ m. (m, true)) ms

  worker-all_read :
      (ms : List (Message V)) (s : CachingStore V) → worker (all_read ms) s ≡ emit_each ms s
  unfolding worker emit_each
  worker-all_read [] s = refl
  worker-all_read (m ∷ ms) s = worker-all_read ms _

module _ {V : Type 0} (d : Descriptor) (arrive : CachingStore V → CachingStore V) (q : ℕ) where
  watch-Mirrors :
      (max : ℕ) (f : Filter) (history : List (Message V)) (s : CachingStore V)
      → s.cache ≡ (emit_each history empty_cache).cache
      → s.base.complete ≡ true
      → ((name : String) → any (is_slot q) (slots_of (get name s.base.slots)) ≡ false)
      → OnStream d arrive q
          (Mirrors q (after_names (filtered_names f d.signals) []))
          (watch d arrive q max f s)
  unfolding watch Mirrors IsConnected AllKept contains any emit_each signal_names get
  watch-Mirrors max f history s built complete fresh =
      connect_each-Mirrors d arrive q none (filtered_names f d.signals) [] _
        (filtered_names-contained f d.signals)
        (λ name. rw built (emit_each-AllKept history empty_cache (empty_cache-AllKept V) name))
        complete (fresh, λ e name key. refl)

  Steps-Mirrors :
      (names : List String) {w v : Watcher V}
      → contains all_signals names ≡ false
      → Mirrors q names w
      → Steps q w v
      → Mirrors q names v
  Steps-Mirrors names plain h at_first = h
  Steps-Mirrors names plain h (emitted {v} m steps) =
      emit-Mirrors q names m v plain (Steps-Mirrors names plain h steps)
  Steps-Mirrors names plain h (yielded {v} steps) =
      yield_next-Mirrors q names v (Steps-Mirrors names plain h steps)

  -- A client with an empty cache that reads the stream to its end holds for every signal of the
  -- stream's filter and every key what the server holds, whatever the server emits meanwhile: if no
  -- message found the queue full, the server's cache was built by emitting, its store is complete when
  -- the stream is opened, so that opening need not wait, none of its slots was the queue's before, and
  -- its signals are named otherwise than all signals together.
  pub worker-mirrors :
      (max : ℕ) (f : Filter) (history : List (Message V)) (s : CachingStore V) {w v : Watcher V}
      → s.cache ≡ (emit_each history empty_cache).cache
      → s.base.complete ≡ true
      → ((name : String) → any (is_slot q) (slots_of (get name s.base.slots)) ≡ false)
      → contains all_signals (signal_names d) ≡ false
      → watch d arrive q max f s ≡ streams w
      → Steps q w v
      → v.dropped ≡ []
      → v.queue.items ≡ []
      → (name : String) (key : Key) → contains name (filtered_names f d.signals) ≡ true
      → cached name key (worker (all_read v.yielded) empty_cache) ≡ cached name key v.store
  unfolding OnStream Mirrors contains any signal_names
  worker-mirrors max f history s {w} {v} built complete fresh plain opened steps kept empty name key
        selected =
      let names = filtered_names f d.signals in
      let start : Mirrors q (after_names names []) w =
        rw opened at (watch-Mirrors max f history s built complete fresh) in
      let other : contains all_signals (after_names names []) ≡ false =
        contains-after_names all_signals names [] ∙ elim (Bool-cases (contains all_signals names)) [
          | inl e ↦
              absurd (false≢true (sym plain ∙ filtered_names-contained f d.signals all_signals e))
          | inr e ↦ rw e refl
        ] in
      let (connected, same) = Steps-Mirrors (after_names names []) other start steps in
      ap (cached name key) (worker-all_read v.yielded empty_cache)
      ∙ ap (λ ms. cached name key (emit_each ms empty_cache)) (sym (append-nil v.yielded))
      ∙ ap (λ ms. cached name key (emit_each (v.yielded ++ ms) empty_cache)) (sym empty)
      ∙ same kept name key
      ∙ rw (contains-after_names name names [], selected) refl
