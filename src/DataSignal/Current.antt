-- ===== src/DataSignal/Current.antt =====
-- Every connected slot has last been called with the current value.
use mathlib.Core.Path.{subst}
use common_core.Base.{
  ℕ, ◌≡◌, refl, sym, ap, ◌∙◌, inl, inr, Bool-cases, String, Bool, true, false, Option, none, some,
  List, [], ◌∷◌, ◌++◌, str_eq, eq_iff, if◌then◌else◌, eq_string, arith,
}
use mathlib.Core.List.{append-nil, append_assoc, map}
use common_core.Base.Dict.{Dict, get, put, get-put, get-remove, Unique, put-Unique, remove-Unique}
use common_core.DataSignal.{
  new_signal, handle_for, DataSignal, emit_to, emit_cached_to, connect_as, connect, disconnect,
  emit_each_to, emit,
}

-- What may happen to a signal.
pub data Step {V : Type 0} (s : DataSignal V) : DataSignal V → Type 0 where
  emitted : (payload : Option V) → Step s (emit payload s)
  connected :
      (slot : ℕ) (handle : Option String) (fresh : String) → Step s (connect slot handle fresh s).0
  disconnected : (handle : String) → Step s (disconnect handle s).0

pub data Steps {V : Type 0} (s : DataSignal V) : DataSignal V → Type 0 where
  none_yet : Steps s s
  then_one : {t u : DataSignal V} → Steps s t → Step t u → Steps s u

module _ {V : Type 0} where
  -- The slot that was last called for a handle, and with what.
  abbrev pub last_call : String → List (String × ℕ × Option V) → Option (ℕ × Option V)
  last_call handle [] = none
  last_call handle ((h, slot, payload) ∷ calls) = elim (last_call handle calls) [
    | some d ↦ some d
    | none ↦ if str_eq h handle then some (slot, payload) else none
  ]

  last_call-append :
      (h : String) (xs ys : List (String × ℕ × Option V))
      → last_call h (xs ++ ys) ≡ elim (last_call h ys) [ some d ↦ some d | none ↦ last_call h xs ]
  last_call-append h [] ys = kept (last_call h ys)
    where
      kept : (o : Option (ℕ × Option V)) → o ≡ elim o [ some d ↦ some d | none ↦ none ]
      kept none = refl
      kept (some d) = refl
  last_call-append h ((g, slot, payload) ∷ xs) ys =
      rw (last_call-append h xs ys) (nested (last_call h ys))
    where
      nested :
          (o : Option (ℕ × Option V))
          → elim (elim o as (λ x. Option (ℕ × Option V)) [
            | some d ↦ some d
            | none ↦ last_call h xs
          ])
              as (λ x. Option (ℕ × Option V)) [
                | some d ↦ some d
                | none ↦ if str_eq g h then some (slot, payload) else none
              ]
            ≡ elim o [ some d ↦ some d | none ↦ last_call h ((g, slot, payload) ∷ xs) ]
      nested none = refl
      nested (some d) = refl

  -- What was last called for a connected handle is its slot, with the cached value, if there is one.
  abbrev pub IsCurrent : DataSignal V → Type 0
  IsCurrent s =
      (v : V)
      → s.cached ≡ some v
      → (h : String) (slot : ℕ) → get h s.slots ≡ some slot
      → last_call h s.calls ≡ some (slot, some v)

  abbrev told : Dict String ℕ → Option V → List (String × ℕ × Option V)
  told slots payload = map (λ c. (c.0, c.1, payload)) slots

  calls-emit_each :
      (slots : Dict String ℕ) (payload : Option V) (s : DataSignal V)
      → (emit_each_to slots payload s).calls ≡ s.calls ++ told slots payload
  unfolding emit_each_to
  calls-emit_each [] payload s = sym (append-nil s.calls)
  calls-emit_each ((g, f) ∷ slots) payload s =
      calls-emit_each slots payload (emit_to g f payload s)
      ∙ append_assoc s.calls ((g, f, payload) ∷ []) (told slots payload)

  last_call-told :
      (h : String) (slots : Dict String ℕ) (payload : Option V)
      → Unique slots
      → last_call h (told slots payload)
        ≡ elim (get h slots) [ none ↦ none | some f ↦ some (f, payload) ]
  unfolding get
  last_call-told h [] payload u = refl
  last_call-told h ((g, f) ∷ slots) payload u =
      ap
        (λ o. elim o as (λ x. Option (ℕ × Option V)) [
          | some d ↦ some d
          | none ↦ if str_eq g h then some (f, payload) else none
        ])
        (last_call-told h slots payload u.1)
      ∙ by_handle (get h slots) (str_eq g h)
          (λ t. ap (λ k. get k slots) (sym ((eq_iff g h).0 t)) ∙ u.0)
    where
      by_handle :
          (o : Option ℕ) (b : Bool)
          → (b ≡ true → o ≡ none)
          → elim (elim o as (λ x. Option (ℕ × Option V)) [
            | none ↦ none
            | some f' ↦ some (f', payload)
          ])
              as (λ x. Option (ℕ × Option V)) [
                | some d ↦ some d
                | none ↦ if b then some (f, payload) else none
              ]
            ≡ elim (if b then some f else o) [ none ↦ none | some f' ↦ some (f', payload) ]
      by_handle none true n = refl
      by_handle none false n = refl
      by_handle (some f') true n = cc (n refl)
      by_handle (some f') false n = refl

  slots-emit_each :
      (slots : Dict String ℕ) (payload : Option V) (s : DataSignal V)
      → (emit_each_to slots payload s).slots ≡ s.slots
  unfolding emit_each_to
  slots-emit_each [] payload s = refl
  slots-emit_each ((g, f) ∷ slots) payload s = slots-emit_each slots payload (emit_to g f payload s)

  emit-IsCurrent :
      (payload : Option V) (s : DataSignal V)
      → s.use_cache ≡ true
      → Unique s.slots
      → IsCurrent (emit payload s)
  unfolding emit
  emit-IsCurrent payload s u q v e h slot c =
      ap (last_call h) (calls-emit_each s.slots payload s)
      ∙ last_call-append h s.calls (told s.slots payload)
      ∙ ap
          (λ o. elim o as (λ x. Option (ℕ × Option V)) [
            | some d ↦ some d
            | none ↦ last_call h s.calls
          ])
          (last_call-told h s.slots payload q)
      ∙ rw (sym (ap (get h) (slots-emit_each s.slots payload s)) ∙ c)
          (ap (λ d. some (slot, d)) (sym (rw u refl) ∙ e))

  connect-IsCurrent :
      (handle : String) (slot : ℕ) (s : DataSignal V)
      → s.use_cache ≡ true
      → IsCurrent s
      → IsCurrent (connect_as handle slot s)
  connect-IsCurrent handle slot s u a =
      subst IsCurrent
        (sym (ap (λ b. if b then emit_cached_to handle slot s.cached joined else joined) u))
        (by_cached s.cached refl)
    where
      joined : DataSignal V
      joined = record s { slots = put handle slot s.slots }

      pair : ℕ → V → Option (ℕ × Option V)
      pair n x = some (n, some x)

      called : (w v : V) (f : ℕ) → some w ≡ some v → some slot ≡ some f → pair slot w ≡ pair f v
      called w v f e g = cc

      told_now :
          (w v : V) (h : String) (f : ℕ)
          → some w ≡ some v
          → get h (put handle slot s.slots) ≡ some f
          → (str_eq handle h ≡ false → last_call h s.calls ≡ some (f, some v))
          → last_call h (s.calls ++ (handle, slot, some w) ∷ []) ≡ some (f, some v)
      told_now w v h f e c rest =
          last_call-append h s.calls ((handle, slot, some w) ∷ [])
          ∙ elim (Bool-cases (str_eq handle h)) [
            | inl t ↦
                rw t (called w v f e (sym (rw t refl) ∙ sym (get-put h handle slot s.slots) ∙ c))
            | inr n ↦ rw n (rest n)
          ]

      by_cached : (o : Option V) → s.cached ≡ o → IsCurrent (emit_cached_to handle slot o joined)
      by_cached none n v e h f c = cc
      by_cached (some w) n v e h f c =
          told_now w v h f (sym n ∙ e) c
            (λ d. a v e h f (sym (rw d refl) ∙ sym (get-put h handle slot s.slots) ∙ c))

  disconnect-IsCurrent :
      (handle : String) (s : DataSignal V) → IsCurrent s → IsCurrent (disconnect handle s).0
  unfolding disconnect
  disconnect-IsCurrent handle s a v e h slot c =
      a v e h slot (ground (arith, get-remove h handle s.slots, c))

  use_cache-emit_each :
      (slots : Dict String ℕ) (payload : Option V) (s : DataSignal V)
      → (emit_each_to slots payload s).use_cache ≡ s.use_cache
  unfolding emit_each_to
  use_cache-emit_each [] payload s = refl
  use_cache-emit_each ((g, f) ∷ slots) payload s =
      use_cache-emit_each slots payload (emit_to g f payload s)

  use_cache-connect :
      (handle : String) (slot : ℕ) (s : DataSignal V)
      → (connect_as handle slot s).use_cache ≡ s.use_cache
  use_cache-connect handle slot s = by_cached s.use_cache s.cached
    where
      joined : DataSignal V
      joined = record s { slots = put handle slot s.slots }

      by_cached :
          (b : Bool) (o : Option V)
          → (if b then emit_cached_to handle slot o joined else joined).use_cache ≡ s.use_cache
      by_cached true none = refl
      by_cached true (some v) = refl
      by_cached false o = refl

  slots-connect :
      (handle : String) (slot : ℕ) (s : DataSignal V)
      → (connect_as handle slot s).slots ≡ put handle slot s.slots
  slots-connect handle slot s = by_cached s.use_cache s.cached
    where
      joined : DataSignal V
      joined = record s { slots = put handle slot s.slots }

      by_cached :
          (b : Bool) (o : Option V)
          → (if b then emit_cached_to handle slot o joined else joined).slots
            ≡ put handle slot s.slots
      by_cached true none = refl
      by_cached true (some v) = refl
      by_cached false o = refl

  -- A signal with a cache whose slots are current, and hold a handle once
  abbrev pub Caches : DataSignal V → Type 0
  Caches s = (s.use_cache ≡ true) × IsCurrent s × Unique s.slots

  Step-Caches : (s : DataSignal V) {t : DataSignal V} → Step s t → Caches s → Caches t
  unfolding emit connect disconnect
  Step-Caches s (emitted payload) (u, a, q) = (
    use_cache-emit_each s.slots payload s ∙ u,
    emit-IsCurrent payload s u q,
    subst Unique (sym (slots-emit_each s.slots payload s)) q,
  )
  Step-Caches s (connected slot handle fresh) (u, a, q) =
      let h = handle_for handle fresh in
      (
        use_cache-connect h slot s ∙ u,
        connect-IsCurrent h slot s u a,
        subst Unique (sym (slots-connect h slot s)) (put-Unique h slot s.slots q),
      )
  Step-Caches s (disconnected handle) (u, a, q) =
      (u, disconnect-IsCurrent handle s a, remove-Unique handle s.slots q)

  -- Whatever is emitted, connected and disconnected, on a signal with a cache that begins without
  -- slots: while the current value is not None, the last call that was made for each connected handle
  -- is a call of the slot that is connected under it, with that value, also where the slot was
  -- connected after the value was emitted.
  pub Steps-IsCurrent : {t : DataSignal V} → Steps (new_signal true) t → IsCurrent t
  Steps-IsCurrent {t = t} steps = current t (all_steps steps)
    where
      current : (t : DataSignal V) → Caches t → IsCurrent t
      current t (u, a, q) = a

      all_steps : {t : DataSignal V} → Steps (new_signal true) t → Caches t
      all_steps none_yet = (refl, (λ v e. cc), tt)
      all_steps (then_one steps step) = Step-Caches _ step (all_steps steps)
