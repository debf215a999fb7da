-- ===== src/Grpc/Watch/Opened.antt =====
-- Opening a stream: the cached messages of its names come first.
use mathlib.Core.List.{append_assoc}
use common_core.Base.Result.{ok, raised}
use common_core.Base.{
  ℕ, String, ◌≡◌, refl, sym, ap, ◌∙◌, inl, inr, Bool-cases, Bool, true, false, not, ◌||◌, ◌&&◌,
  Option, none, some, List, [], ◌∷◌, any, beq_refl, str_eq, eq_iff, if◌then◌else◌, eq_option,
  eq_string, eq_ℕ,
}
use common_core.Base.Dict.{Dict, get, get-put}
use common_core.RoundRobin.{is_full, put_nowait}
use common_core.Signals.Message.{
  Message, Descriptor, signal_name, mapping_controls, signal_names, contains,
}
use common_core.Signals.Store
use common_core.Signals.Store.{
  Slot, callback, payload_to, Filter, SignalStore, key_error, all_signals, slots_of, add_slot,
}
use common_core.Signals.Caching.{
  Key, Cached, CachingStore, map_of, empty_cache, emit_each, connect_signal, emit_cached_to,
  messages_of, is_field, replay, replay_found,
}
use common_core.Signals.Caching.History.{cached, cached-emit}
use common_core.Signals.Caching.Replay.{calls_to, calls-replay, cache-replay}
use common_core.Grpc.Watch.{
  is_slot, Watcher, Opening, streams, fails, overflows, follow, end_mark, mark_end, connect_each,
}
use common_core.Grpc.Watch.Puts.{
  received, emit_each-append, Puts, follow-Puts, messages_for-calls_to,
}
use common_core.Grpc.Watch.Mirror.{any-append, IsConnected, Mirrors, mirror}
use common_core.Grpc.Watch.Kept.{AllKept, or_else, cached-messages}

pub or_true : (a : Bool) → a || true ≡ true
or_true true = refl
or_true false = refl

-- What a replayed signal adds to a mirror
adds :
    {V : Type 0} (a c : Bool) (o x y : Option (Message V))
    → x ≡ (if c then y else none)
    → (a ≡ true → o ≡ y)
    → (if a then or_else o x else x) ≡ (if if a then true else c then y else none)
adds false c o x y h e = h
adds true c (some m) x y h e = e refl
adds true true none x y h e = h
adds true false none x y h e = h ∙ e refl

-- The names, the last one first, before others
abbrev pub after_names : List String → List String → List String
after_names [] done = done
after_names (name ∷ names) done = after_names names (name ∷ done)

contains-head : (name : String) (names : List String) → contains name (name ∷ names) ≡ true
unfolding contains any
contains-head name names = rw (beq_refl name) refl

contains-tail :
    (name n : String) (names : List String)
    → contains name names ≡ true
    → contains name (n ∷ names) ≡ true
unfolding contains any
contains-tail name n names h = elim (Bool-cases (str_eq n name)) [
  | inl e ↦ rw e refl
  | inr e ↦ rw e h
]

module _ {V : Type 0} (d : Descriptor) (arrive : CachingStore V → CachingStore V) (q : ℕ) where
  items_of : String → CachingStore V → Cached V
  items_of name s = map_of (get name s.cache)

  joined : String → CachingStore V → CachingStore V
  joined name s = record s { base = add_slot name (callback q) s.base }

  -- What is cached for a known name is replayed, also where that is nothing; `t` is the store after the
  -- wait, which need not take place.
  found :
      (name : String) (o : Option (Cached V)) (s t : CachingStore V)
      → is_field d name ≡ true
      → t ≡ s
      → o ≡ get name s.cache
      → replay_found (callback q) (elim o [
        | some m ↦ (ok m, s)
        | none ↦
            if is_field d name then (ok (map_of (get name t.cache)), t) else (raised key_error, s)
      ])
        ≡ ok (replay (callback q) (map_of (get name s.cache)) s)
  unfolding replay_found
  found name none s t known e h =
      rw known (ap (λ u. ok (replay (callback q) (map_of (get name u.cache)) u)) e)
  found name (some m) s t known e h = ap (λ o. ok (replay (callback q) (map_of o) s)) h

  no_wait :
      (s : CachingStore V)
      → s.base.complete ≡ true
      → (if true && not s.base.complete then arrive s else s) ≡ s
  no_wait s complete = rw complete refl

  or_empty :
      (name : String) (c : Dict String (Cached V)) (s : CachingStore V)
      (x : Store.Result (CachingStore V))
      → x ≡ ok (replay (callback q) (map_of (get name c)) s)
      → elim c [ [] ↦ ok s | i ∷ r ↦ x ] ≡ ok (replay (callback q) (map_of (get name c)) s)
  unfolding replay get
  or_empty name [] s x h = refl
  or_empty name (i ∷ r) s x h = h

  -- A store that is complete need not be waited for, and replays what is cached.
  connect_signal-known :
      (name : String) (s : CachingStore V)
      → contains name (signal_names d) ≡ true
      → s.base.complete ≡ true
      → connect_signal d arrive name (callback q) s
        ≡ ok (replay (callback q) (items_of name s) (joined name s))
  unfolding connect_signal Store.connect_signal emit_cached_to messages_of is_field items_of joined
  connect_signal-known name s known complete =
      rw (known, connect_signal, Store.connect_signal)
        (or_empty name s.cache (joined name s) _ (
          found name (get name s.cache) (joined name s) _ (rw (is_field, known) refl)
            (no_wait (joined name s) complete) refl))

  complete-replay :
      (items : Cached V) (s : CachingStore V)
      → (replay (callback q) items s).base.complete ≡ s.base.complete
  unfolding replay
  complete-replay [] s = refl
  complete-replay ((key, m) ∷ items) s = complete-replay items _

  slots-replay :
      (items : Cached V) (s : CachingStore V)
      → (replay (callback q) items s).base.slots ≡ s.base.slots
  unfolding replay
  slots-replay [] s = refl
  slots-replay ((key, m) ∷ items) s = slots-replay items _

  IsConnected-joined :
      (names : List String) (name : String) (s : CachingStore V)
      → IsConnected q names s
      → IsConnected q (name ∷ names) (joined name s)
  unfolding IsConnected joined add_slot contains any
  IsConnected-joined names name s h n =
      ap (λ o. any (is_slot q) (slots_of o)) (get-put n name _ s.base.slots)
      ∙ elim (Bool-cases (str_eq name n)) [
        | inr e ↦ rw e (h n)
        | inl e ↦ rw e (
            any-append (is_slot q) (slots_of (get name s.base.slots)) (callback q ∷ [])
            ∙ rw (beq_refl q) (or_true _))
      ]

  -- Connecting to another name
  connect-Mirrors :
      (names : List String) (name : String) (w : Watcher V)
      → AllKept w.store
      → Mirrors q names w
      → Mirrors q
          (name ∷ names)
          (follow q (replay (callback q) (items_of name w.store) (joined name w.store)) w)
  unfolding Mirrors IsConnected Puts joined items_of AllKept add_slot contains any
  connect-Mirrors names name w kept (connected, same) =
      let items = items_of name w.store in
      let s = replay (callback q) items (joined name w.store) in
      let (store, puts) =
        follow-Puts q s w (calls_to (callback q) items)
          (calls-replay (callback q) items (joined name w.store)) in
      let cache : s.cache ≡ w.store.cache = cache-replay (callback q) items (joined name w.store) in
      (
        λ n.
            rw (store, slots-replay items (joined name w.store))
              (IsConnected-joined names name w.store connected n),
        λ e n key.
            let (none_dropped, more) = puts e in
            ap (λ ms. cached n key (emit_each ms empty_cache)) more
            ∙ ap (cached n key) (emit_each-append (received w) _ empty_cache)
            ∙ ap (λ ms. cached n key (emit_each ms (emit_each (received w) empty_cache)))
                (messages_for-calls_to q items)
            ∙ cached-messages n name key items (emit_each (received w) empty_cache) (kept name)
            ∙ adds (str_eq name n) (contains n names) (get key items) _ (cached n key w.store)
                (same none_dropped n key)
                (λ e. ap (λ k. cached k key w.store) ((eq_iff name n).0 e))
            ∙ ap (λ c. if contains n (name ∷ names) then get key (map_of (get n c)) else none)
                (sym cache)
            ∙ ap (λ s. mirror q (name ∷ names) s n key) (sym store),
      )

  -- What a stream is like that was opened
  unfoldable pub OnStream : (Watcher V → Type 0) → Opening V → Type 0
  OnStream P (streams w) = P w
  OnStream P (fails e w) = Unit
  OnStream P (overflows w) = Unit

  -- The empty message changes no cache.
  mark_end-Mirrors :
      (last : Option String) (names : List String) (w : Watcher V)
      → Mirrors q names w
      → OnStream (Mirrors q names) (mark_end d arrive q last w)
  unfolding OnStream Mirrors put_nowait signal_name mapping_controls emit_each
  mark_end-Mirrors last names w (connected, same) = elim (Bool-cases (is_full w.queue)) [
    | inl f ↦ rw (mark_end, put_nowait, f) tt
    | inr f ↦
        rw (mark_end, put_nowait, f)
          (
            connected,
            λ e name key.
                ap (λ ms. cached name key (emit_each ms empty_cache))
                  (sym (append_assoc w.yielded w.queue.items (end_mark d arrive q ∷ [])))
                ∙ ap (cached name key)
                    (emit_each-append (received w) (end_mark d arrive q ∷ []) empty_cache)
                ∙ unmarked name key (emit_each (received w) empty_cache)
                ∙ same e name key,
          )
  ]
    where
      unmarked :
          (name : String) (key : Key) (c : CachingStore V)
          → cached name key (emit_each (end_mark d arrive q ∷ []) c) ≡ cached name key c
      unmarked name key c = cached-emit name key (end_mark d arrive q) c

  still_kept :
      (name : String) (w : Watcher V)
      → AllKept w.store
      → AllKept
          (follow q (replay (callback q) (items_of name w.store) (joined name w.store)) w).store
  unfolding AllKept joined add_slot Puts
  still_kept name w kept n =
      let items = items_of name w.store in
      let s = replay (callback q) items (joined name w.store) in
      let store =
        (follow-Puts q s w (calls_to (callback q) items)
          (calls-replay (callback q) items (joined name w.store))).0 in
      rw (store, cache-replay (callback q) items (joined name w.store)) (kept n)

  still_complete :
      (name : String) (w : Watcher V)
      → w.store.base.complete ≡ true
      → (follow q
          (replay (callback q) (items_of name w.store) (joined name w.store))
          w).store.base.complete
        ≡ true
  unfolding joined add_slot Puts
  still_complete name w complete =
      let items = items_of name w.store in
      let s = replay (callback q) items (joined name w.store) in
      let store =
        (follow-Puts q s w (calls_to (callback q) items)
          (calls-replay (callback q) items (joined name w.store))).0 in
      rw (store, complete-replay items (joined name w.store)) complete

  pub connect_each-Mirrors :
      (last : Option String) (names done : List String) (w : Watcher V)
      → ((name : String) → contains name names ≡ true → contains name (signal_names d) ≡ true)
      → AllKept w.store
      → w.store.base.complete ≡ true
      → Mirrors q done w
      → OnStream (Mirrors q (after_names names done)) (connect_each d arrive q last names w)
  unfolding connect_each OnStream
  connect_each-Mirrors last [] done w known kept complete h = mark_end-Mirrors last done w h
  connect_each-Mirrors last (name ∷ names) done w known kept complete h =
      rw
        (
          connect_each,
          connect_signal-known name w.store (known name (contains-head name names)) complete,
        )
        (connect_each-Mirrors (some name) names (name ∷ done) _
          (λ n e. known n (contains-tail n name names e)) (still_kept name w kept)
          (still_complete name w complete) (connect-Mirrors done name w kept h))
