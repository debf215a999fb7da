-- ===== src/Grpc/Watch/Puts.antt =====
-- What the queue of a stream takes in.
use mathlib.Core.List.{append-nil, append_assoc}
use common_core.Base.{
  ℕ, String, ◌≡◌, ◌≢◌, refl, sym, ap, ◌∙◌, inl, inr, Bool-cases, Bool, true, false, ◌&&◌, Option,
  List, [], ◌∷◌, ◌++◌, length, drop, any, beq_refl, if◌then◌else◌, eq_option, eq_string, eq_ℕ,
}
use common_core.RoundRobin.{is_full, put_nowait}
use common_core.Signals.Message.{Message}
use common_core.Signals.Store.{Slot, callback}
use common_core.Signals.Delivery.{calls_with}
use common_core.Signals.Caching
use common_core.Signals.Caching.{
  Key, Cached, CachingStore, map_of, empty_cache, emit_each, connect_signal, emit_cached_to, replay,
}
use common_core.Signals.Caching.History.{cached, addresses, unless_removal, cached-emit}
use common_core.Signals.Caching.Replay.{calls_to}
use common_core.Grpc.Watch.{is_slot, Watcher, put_or_drop, put_messages, messages_for, follow}
use common_core.Grpc.Watch.Kept.{messages}

pub drop-append {ℓ} : {A : Type ℓ} (xs ys : List A) → drop (length xs) (xs ++ ys) ≡ ys
drop-append [] ys = refl
drop-append (x ∷ xs) ys = drop-append xs ys

module _ {V : Type 0} where
  -- What a stream has given or will give to its client
  abbrev pub received : Watcher V → List (Message V)
  received w = w.yielded ++ w.queue.items

  pub emit_each-append :
      (ms ns : List (Message V)) (c : CachingStore V)
      → emit_each (ms ++ ns) c ≡ emit_each ns (emit_each ms c)
  unfolding emit_each
  emit_each-append [] ns c = refl
  emit_each-append (m ∷ ms) ns c = emit_each-append ms ns (Caching.emit m c)

  -- If nothing was dropped, everything is in the queue.
  unfoldable pub Puts : List (Message V) → Watcher V → Watcher V → Type 0
  Puts ms w v =
      (v.store ≡ w.store) × (v.dropped ≡ [] → (w.dropped ≡ []) × (received v ≡ received w ++ ms))

  pub put_or_drop-Puts : (m : Message V) (w : Watcher V) → Puts (m ∷ []) w (put_or_drop m w)
  unfolding put_nowait Puts
  put_or_drop-Puts m w = elim (Bool-cases (is_full w.queue)) [
    | inl f ↦ rw (put_or_drop, put_nowait, f) (refl, λ e. absurd (nonempty w.dropped e))
    | inr f ↦
        rw (put_or_drop, put_nowait, f)
          (refl, λ e. (e, sym (append_assoc w.yielded w.queue.items (m ∷ []))))
  ]
    where
      nonempty : (xs : List (Message V)) → xs ++ m ∷ [] ≢ []
      nonempty [] e = cc
      nonempty (x ∷ xs) e = cc

  pub put_messages-Puts : (ms : List (Message V)) (w : Watcher V) → Puts ms w (put_messages ms w)
  unfolding put_messages Puts
  put_messages-Puts [] w = (refl, λ e. (e, sym (append-nil (received w))))
  put_messages-Puts (m ∷ ms) w =
      let (store, kept) = put_or_drop-Puts m w in
      let (store', kept') = put_messages-Puts ms (put_or_drop m w) in
      (
        store' ∙ store,
        λ e.
            let (none_dropped, more) = kept' e in
            let (none_before, one) = kept none_dropped in
            (none_before, more ∙ ap (λ l. l ++ ms) one ∙ append_assoc (received w) (m ∷ []) ms),
      )

  -- The messages of calls to the slot
  unfoldable pub copies : ℕ → Message V → List Slot → List (Message V)
  copies q m slots = messages_for q (calls_with m slots)

  -- One copy or more of a message do what one does.
  pub cached-copies :
      (q : ℕ) (name : String) (key : Key) (m : Message V) (slots : List Slot) (c : CachingStore V)
      → cached name key (emit_each (copies q m slots) c) ≡ (
          if any (is_slot q) slots && addresses name key m
          then unless_removal m
          else cached name key c)
  unfolding copies messages_for emit_each any
  cached-copies q name key m [] c = refl
  cached-copies q name key m (slot ∷ slots) c = elim (Bool-cases (is_slot q slot)) [
    | inr e ↦ rw e (cached-copies q name key m slots c)
    | inl e ↦ rw e (
        cached-copies q name key m slots (Caching.emit m c)
        ∙ rw (cached-emit name key m c) (twice (any (is_slot q) slots) (addresses name key m) _ _))
  ]
    where
      twice :
          (a b : Bool) (x y : Option (Message V))
          → (if a && b then x else (if b then x else y)) ≡ (if b then x else y)
      twice true true x y = refl
      twice true false x y = refl
      twice false b x y = refl

  pub messages_for-calls_to :
      (q : ℕ) (items : Cached V) → messages_for q (calls_to (callback q) items) ≡ messages items
  unfolding messages_for
  messages_for-calls_to q [] = refl
  messages_for-calls_to q ((key, m) ∷ items) =
      rw (beq_refl q) (ap (λ l. m ∷ l) (messages_for-calls_to q items))

  -- Following the store puts the messages of its new calls in the queue.
  pub follow-Puts :
      (q : ℕ) (s : CachingStore V) (w : Watcher V) (calls : List (Slot × Message V))
      → s.base.calls ≡ w.store.base.calls ++ calls
      → Puts (messages_for q calls) (record w { store = s }) (follow q s w)
  unfolding follow
  follow-Puts q s w calls h =
      let new : messages_for q (drop (length w.store.base.calls) s.base.calls)
          ≡ messages_for q calls =
        ap (λ l. messages_for q (drop (length w.store.base.calls) l)) h
        ∙ ap (messages_for q) (drop-append w.store.base.calls calls) in
      rw (follow, new) (put_messages-Puts (messages_for q calls) (record w { store = s }))
