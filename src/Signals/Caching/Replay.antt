-- ===== src/Signals/Caching/Replay.antt =====
-- What a slot receives that is connected late.
use common_core.Base.Result.{ok}
use common_core.Base.{String, ◌≡◌, refl, ◌∙◌, sym, true, some, List, [], ◌∷◌, ◌++◌, eq_string}
use mathlib.Core.List.{append-nil, append_assoc}
use common_core.Base.Dict.{Dict, get}
use common_core.Signals.Message.{Message, Descriptor, signal_names, contains}
use common_core.Signals.Store
use common_core.Signals.Store.{SignalStore, Slot, Result, add_slot}
use common_core.Signals.Caching.{
  Cached, CachingStore, replay, messages_of, emit_cached_to, connect_signal,
}

module _ {V : Type 0} where
  -- The calls of a slot with the messages of a data map, in its order.
  abbrev pub calls_to : Slot → Cached V → List (Slot × Message V)
  calls_to slot [] = []
  calls_to slot ((key, m) ∷ items) = (slot, m) ∷ calls_to slot items

  pub calls-replay :
      (slot : Slot) (items : Cached V) (s : CachingStore V)
      → (replay slot items s).base.calls ≡ s.base.calls ++ calls_to slot items
  unfolding replay
  calls-replay slot [] s = sym (append-nil s.base.calls)
  calls-replay slot ((key, m) ∷ items) s =
      calls-replay slot items _ ∙ append_assoc s.base.calls ((slot, m) ∷ []) (calls_to slot items)

  pub cache-replay :
      (slot : Slot) (items : Cached V) (s : CachingStore V) → (replay slot items s).cache ≡ s.cache
  unfolding replay
  cache-replay slot [] s = refl
  cache-replay slot ((key, m) ∷ items) s = cache-replay slot items _

  cache-nonempty :
      (name : String) (c : Dict String (Cached V)) {items : Cached V} {B : Type 0} (x y : B)
      → get name c ≡ some items
      → elim c [ [] ↦ x | i ∷ r ↦ y ] ≡ y
  unfolding get
  cache-nonempty name [] x y h = cc
  cache-nonempty name (i ∷ r) x y h = refl

module _ {V : Type 0} (d : Descriptor) (arrive : CachingStore V → CachingStore V) where
  emit_cached_to-found :
      (name : String) (slot : Slot) (s : CachingStore V) {items : Cached V}
      → get name s.cache ≡ some items
      → emit_cached_to d arrive name slot s ≡ ok (replay slot items s)
  unfolding emit_cached_to
  emit_cached_to-found name slot s h = cache-nonempty name s.cache _ _ h ∙ rw (h, messages_of)

  -- A slot that is connected to a signal of the descriptor of which messages are cached is called
  -- at once, with each of them and nothing else, and the cache stays as it is.
  pub connect_signal-replays :
      (name : String) (slot : Slot) (s : CachingStore V) {items : Cached V}
      → contains name (signal_names d) ≡ true
      → get name s.cache ≡ some items
      → (s' : CachingStore V) × (connect_signal d arrive name slot s ≡ ok s')
        × (s'.base.calls ≡ s.base.calls ++ calls_to slot items)
        × (s'.cache ≡ s.cache)
  unfolding connect_signal Store.connect_signal add_slot
  connect_signal-replays name slot s {items} known h =
      let joined = record s { base = add_slot name slot s.base } in
      (
        replay slot items joined,
        rw (known, connect_signal, Store.connect_signal) (emit_cached_to-found name slot joined h),
        calls-replay slot items joined,
        cache-replay slot items joined,
      )
