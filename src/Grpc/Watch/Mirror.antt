-- ===== src/Grpc/Watch/Mirror.antt =====
-- A client that emits what a stream yields has the server's cache.
use mathlib.Core.Bool.{false≢true}
use mathlib.Core.List.{append_assoc}
use common_core.Base.{
  ℕ, String, ◌≡◌, refl, sym, ap, ◌∙◌, inl, inr, Bool-cases, Bool, true, false, ◌&&◌, ◌||◌, Option,
  none, some, List, [], ◌∷◌, ◌++◌, any, str_eq, eq_iff, if◌then◌else◌, eq_option, eq_string, eq_ℕ,
  option_beq,
}
use common_core.Base.Dict.{get}
use common_core.Signals.Message.{Message, signal_name, mapping_controls, contains}
use common_core.Signals.Store.{all_signals, slots_of}
use common_core.Signals.Delivery.{receivers, receivers_of, calls-emit, slots-emit}
use common_core.Signals.Caching
use common_core.Signals.Caching.{
  Key, Cached, CachingStore, map_of, empty_cache, emit_each, connect_signal, emit_cached_to, replay,
}
use common_core.Signals.Caching.History.{cached, addresses, unless_removal, cached-emit}
use common_core.Grpc.Watch.{is_slot, Watcher, follow, emit, moved, yield_next}
use common_core.Grpc.Watch.Puts.{
  received, emit_each-append, Puts, follow-Puts, copies, cached-copies,
}

pub any-append {ℓ} :
    {A : Type ℓ} (p : A → Bool) (xs ys : List A) → any p (xs ++ ys) ≡ any p xs || any p ys
unfolding any
any-append p [] ys = refl
any-append p (x ∷ xs) ys = elim (Bool-cases (p x)) [
  | inl e ↦ rw e refl
  | inr e ↦ rw e (any-append p xs ys)
]

or_false : (a b : Bool) → b ≡ false → a || b ≡ a
or_false true b h = refl
or_false false b h = h

-- A message that arrives changes both caches in the same way.
alike :
    {A : Type 0} (a b c : Bool) (x y o : Option A)
    → (b ≡ true → a ≡ c)
    → o ≡ (if c then y else none)
    → (if a && b then x else o) ≡ (if c then if b then x else y else none)
alike a true true x y o h e = rw (h refl) refl
alike a true false x y o h e = rw (h refl) e
alike true false c x y o h e = e
alike false false c x y o h e = e

module _ {V : Type 0} (q : ℕ) where
  -- The slot is connected to some names and to no other.
  unfoldable pub IsConnected : List String → CachingStore V → Type 0
  IsConnected names s =
      (name : String) → any (is_slot q) (slots_of (get name s.base.slots)) ≡ contains name names

  -- The cache of a client, and what it has to be: that of the server for some names, and nothing
  abbrev pub mirrored : Watcher V → String → Key → Option (Message V)
  mirrored w name key = cached name key (emit_each (received w) empty_cache)

  abbrev pub mirror : List String → CachingStore V → String → Key → Option (Message V)
  mirror names s name key = if contains name names then cached name key s else none

  unfoldable pub Mirrors : List String → Watcher V → Type 0
  Mirrors names w =
      IsConnected names w.store
      × (w.dropped ≡ []
          → (name : String) (key : Key) → mirrored w name key ≡ mirror names w.store name key)

  -- A signal reaches the slot if it is one of the names.
  reaches :
      (names : List String) (m : Message V) (s : CachingStore V) (name : String) (key : Key)
      → contains all_signals names ≡ false
      → IsConnected names s
      → addresses name key m ≡ true
      → any (is_slot q) (receivers m s.base) ≡ contains name names
  unfolding IsConnected
  reaches names m s name key plain connected h = by_name (signal_name m) h
    where
      by_name :
          (o : Option String)
          → option_beq o (some name) && option_beq (mapping_controls m).1 key ≡ true
          → any (is_slot q) (receivers_of o s.base) ≡ contains name names
      by_name none e = absurd (false≢true e)
      by_name (some n) e =
          let same : n ≡ name = (eq_iff n name).0 (elim (Bool-cases (str_eq n name)) [
            | inl f ↦ f
            | inr f ↦ absurd (false≢true (rw f at e))
          ]) in
          any-append (is_slot q) (slots_of (get n s.base.slots)) _
          ∙ or_false _ _ (connected all_signals ∙ plain)
          ∙ connected n
          ∙ ap (λ k. contains k names) same

  pub emit-Mirrors :
      (names : List String) (m : Message V) (w : Watcher V)
      → contains all_signals names ≡ false
      → Mirrors names w
      → Mirrors names (emit q m w)
  unfolding emit follow Mirrors IsConnected Puts copies Caching.emit
  emit-Mirrors names m w plain (connected, same) =
      let (store, kept) = follow-Puts q (Caching.emit m w.store) w _ (calls-emit m w.store.base) in
      (
        λ name. rw (store, slots-emit m w.store.base) (connected name),
        λ e name key.
            let (none_dropped, more) = kept e in
            ap (λ ms. cached name key (emit_each ms empty_cache)) more
            ∙ ap (cached name key) (emit_each-append (received w) _ empty_cache)
            ∙ cached-copies q name key m (receivers m w.store.base)
                (emit_each (received w) empty_cache)
            ∙ alike _ (addresses name key m) (contains name names) (unless_removal m)
                (cached name key w.store) _ (reaches names m w.store name key plain connected)
                (same none_dropped name key)
            ∙ sym (
                ap (λ s. mirror names s name key) store
                ∙ ap (λ o. if contains name names then o else none)
                    (cached-emit name key m w.store)),
      )

  received-yield_next : (w : Watcher V) → received (yield_next w) ≡ received w
  unfolding yield_next
  received-yield_next w = by_items w.queue.items refl
    where
      by_items :
          (items : List (Message V)) → w.queue.items ≡ items → received (moved items w) ≡ received w
      by_items [] e = refl
      by_items (m ∷ ms) e = append_assoc w.yielded (m ∷ []) ms ∙ ap (λ l. w.yielded ++ l) (sym e)

  yield_next-kept :
      (w : Watcher V) → ((yield_next w).store ≡ w.store) × ((yield_next w).dropped ≡ w.dropped)
  unfolding yield_next
  yield_next-kept w = by_items w.queue.items
    where
      by_items :
          (items : List (Message V))
          → ((moved items w).store ≡ w.store) × ((moved items w).dropped ≡ w.dropped)
      by_items [] = (refl, refl)
      by_items (m ∷ ms) = (refl, refl)

  pub yield_next-Mirrors :
      (names : List String) (w : Watcher V) → Mirrors names w → Mirrors names (yield_next w)
  unfolding Mirrors IsConnected
  yield_next-Mirrors names w (connected, same) =
      let (store, dropped) = yield_next-kept w in
      (
        λ name. rw store (connected name),
        λ e name key.
            ap (λ ms. cached name key (emit_each ms empty_cache)) (received-yield_next w)
            ∙ same (sym dropped ∙ e) name key
            ∙ ap (λ s. mirror names s name key) (sym store),
      )
