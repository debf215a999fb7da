-- ===== src/Grpc/Watch/Kept.antt =====
-- What a cache holds: under each key once the last message with that key, and no removals.
use common_core.Base.{
  String, ◌≡◌, refl, sym, ap, ◌∙◌, inl, inr, Bool-cases, Bool, true, false, Option, none, some,
  List, [], ◌∷◌, str_eq, eq_iff, if◌then◌else◌, eq_option, eq_string, option_beq,
  option_beq_reflects, arith,
}
use common_core.Base.Dict.{get, put, remove, get-put, get-remove}
use common_core.Signals.Message.{Action, removal, Message, signal_name, mapping_controls}
use common_core.Signals.Caching.{
  Key, Cached, CachingStore, map_of, update_map, cache_message, empty_cache, emit, emit_each,
}
use common_core.Signals.Caching.History.{
  cached, after, unless_removal, cached-emit, get-update_cache,
}

none_anyway : {A : Type 0} → (b : Bool) → {o : Option A} → o ≡ none → (if b then none else o) ≡ none
none_anyway true h = refl
none_anyway false h = h

module _ {V : Type 0} where
  -- The items of the map of a signal
  unfoldable pub IsKept : String → Cached V → Type 0
  IsKept name [] = Unit
  IsKept name ((key, m) ∷ items) =
      (signal_name m ≡ some name)
      × ((mapping_controls m).1 ≡ key)
      × (unless_removal m ≡ some m)
      × (get key items ≡ none)
      × IsKept name items

  abbrev pub messages : Cached V → List (Message V)
  messages [] = []
  messages ((key, m) ∷ items) = m ∷ messages items

  abbrev pub or_else : Option (Message V) → Option (Message V) → Option (Message V)
  or_else (some m) o = some m
  or_else none o = o

  -- Emitting what is kept for a signal sets what another cache holds for it.
  pub cached-messages :
      (name n : String) (key : Key) (items : Cached V) (c : CachingStore V)
      → IsKept n items
      → cached name key (emit_each (messages items) c)
        ≡ (if str_eq n name then or_else (get key items) (cached name key c) else cached name key c)
  unfolding emit_each IsKept get
  cached-messages name n key [] c h = elim (Bool-cases (str_eq n name)) [
    | inl e ↦ rw e refl
    | inr e ↦ rw e refl
  ]
  cached-messages name n key ((k, m) ∷ items) c (named, keyed, stays, once, h) =
      cached-messages name n key items (emit m c) h ∙ elim (Bool-cases (str_eq n name)) [
        | inr e ↦ rw (e, cached-emit name key m c, named, e) refl
        | inl e ↦ elim (Bool-cases (option_beq k key)) [
          | inl f ↦
              let same : get key items ≡ none =
                ap (λ j. get j items) (sym ((option_beq_reflects k key).0 f)) ∙ once in
              rw (e, f, same, cached-emit name key m c, named, e, keyed, f) stays
          | inr f ↦ rw (e, f, cached-emit name key m c, named, e, keyed, f) refl
        ]
      ]

  get-put-none :
      (j k : Key) (m : Message V) (d : Cached V)
      → option_beq k j ≡ false
      → get j d ≡ none
      → get j (put k m d) ≡ none
  get-put-none j k m d e h = get-put j k m d ∙ rw e h

  put-IsKept :
      (name : String) (m : Message V) (d : Cached V)
      → signal_name m ≡ some name
      → unless_removal m ≡ some m
      → IsKept name d
      → IsKept name (put (mapping_controls m).1 m d)
  unfolding IsKept put get
  put-IsKept name m [] named stays h = (named, refl, stays, refl, tt)
  put-IsKept name m ((j, n) ∷ d) named stays (named', keyed, stays', once, h) =
      let k = (mapping_controls m).1 in
      elim (Bool-cases (option_beq j k)) [
        | inl e ↦ rw (put, e) (named, sym ((option_beq_reflects j k).0 e), stays, once, h)
        | inr e ↦
            rw (put, e)
              (
                named',
                keyed,
                stays',
                get-put-none j k m d
                    (ground (arith, option_beq_reflects j k, option_beq_reflects k j, e)) once,
                put-IsKept name m d named stays h,
              )
      ]

  remove-IsKept :
      (name : String) (k : Key) (d : Cached V) → IsKept name d → IsKept name (remove k d)
  unfolding IsKept remove
  remove-IsKept name k [] h = tt
  remove-IsKept name k ((j, n) ∷ d) (named, keyed, stays, once, h) =
      elim (Bool-cases (option_beq j k)) [
        | inl e ↦ rw (remove, e) (remove-IsKept name k d h)
        | inr e ↦
            rw (remove, e)
              (
                named,
                keyed,
                stays,
                get-remove j k d ∙ none_anyway (option_beq k j) once,
                remove-IsKept name k d h,
              )
      ]

  update_map-IsKept :
      (name : String) (m : Message V) (d : Cached V)
      → signal_name m ≡ some name
      → IsKept name d
      → IsKept name (update_map (mapping_controls m).0 (mapping_controls m).1 m d)
  update_map-IsKept name m d named h = by_action (mapping_controls m).0 refl
    where
      by_action :
          (a : Action)
          → (mapping_controls m).0 ≡ a
          → IsKept name (update_map a (mapping_controls m).1 m d)
      by_action removal e = remove-IsKept name (mapping_controls m).1 d h
      by_action _ e = put-IsKept name m d named (ap (λ a. after a m) e) h

  unfoldable pub AllKept : CachingStore V → Type 0
  AllKept s = (name : String) → IsKept name (map_of (get name s.cache))

  emit-AllKept : (m : Message V) (s : CachingStore V) → AllKept s → AllKept (emit m s)
  unfolding emit AllKept
  emit-AllKept m s h name = by_name (signal_name m) refl
    where
      by_name :
          (o : Option String)
          → signal_name m ≡ o
          → IsKept name (map_of (get name (cache_message o m s.cache)))
      by_name none e = h name
      by_name (some n) e =
          rw (get-update_cache name n (mapping_controls m).0 (mapping_controls m).1 m s.cache)
            (elim (Bool-cases (str_eq n name)) [
              | inl f ↦
                  rw f (update_map-IsKept name m _ (e ∙ ap some ((eq_iff n name).0 f)) (h name))
              | inr f ↦ rw f (h name)
            ])

  -- A cache that was built by emitting messages
  pub emit_each-AllKept :
      (ms : List (Message V)) (s : CachingStore V) → AllKept s → AllKept (emit_each ms s)
  unfolding emit_each
  emit_each-AllKept [] s h = h
  emit_each-AllKept (m ∷ ms) s h = emit_each-AllKept ms (emit m s) (emit-AllKept m s h)

pub empty_cache-AllKept : (V : Type 0) → AllKept (empty_cache {V = V})
unfolding AllKept get IsKept
empty_cache-AllKept V name = tt
