-- ===== src/Signals/Caching/Mapping/Derived.antt =====
-- The mapping actions that `emit_mapping` derives, and what they do to the cache.
use common_core.Base.{
  String, ◌≡◌, ◌≢◌, refl, sym, ap, ◌∙◌, inl, inr, Bool-cases, Bool, true, false, Option, none, some,
  str_eq, eq_iff, if◌then◌else◌, arith, Eq, eq_option, eq_string, option_beq, option_beq_reflects,
}
use mathlib.Core.List.{append-nil}
use common_core.Base.Dict.{get}
use common_core.Signals.Message.{
  Action, addition, update, other, Message, Descriptor, signal_name, mapping_controls, make_message,
}
use common_core.Signals.Delivery.{calls-emit}
use common_core.Signals.Caching.{Key, CachingStore, emit}
use common_core.Signals.Caching.History.{cached, after, cached-emit}
use common_core.Signals.Caching.Mapping.{
  field_of, get_cached_signal, infer_action, is_given, chosen_action, emit_action, emit_mapping,
}

str_ne : (s t : String) → s ≢ t → str_eq s t ≡ false
str_ne s t h = ground (arith, eq_iff s t)

-- The actions that have a name in the code.
abbrev pub IsNamed : Action → Type 0
IsNamed (other n) = ⊥
IsNamed _ = Unit

module _ {V : Type 0} where
  pub signal_name-make :
      (name : String) (key : Key) (v : V) (a : Action)
      → name ≢ ""
      → signal_name (make_message name key (some v) a) ≡ some name
  unfolding signal_name make_message
  signal_name-make name key v a h = rw (str_ne name "" h)

  controls-make :
      (name k : String) (v : Option V) (a : Action)
      → k ≢ ""
      → IsNamed a
      → mapping_controls (make_message name (some k) v a) ≡ (a, some k)
  unfolding mapping_controls make_message
  controls-make name k v (other n) h i = absurd i
  controls-make name k v _ h i = rw (str_ne k "" h)

  -- What a reader gets for a cached message.
  abbrev pub read : V → String → Option (Message V) → Option V
  read unset name none = none
  read unset name (some m) = some (field_of unset name m)

  field_of-make :
      (unset : V) (name : String) (key : Key) (v : V) (a : Action)
      → field_of unset name (make_message name key (some v) a) ≡ v
  unfolding field_of make_message
  field_of-make unset name key v a = rw ((eq_iff name name).1 refl)

module _ {V : Type 0} (d : Descriptor) (arrive : CachingStore V → CachingStore V) (unset : V)
    (name : String) where
  pub get_cached_signal-read :
      (key : Key) (s : CachingStore V)
      → get_cached_signal d arrive unset name key false none s ≡ read unset name (cached name key s)
  unfolding get_cached_signal get
  get_cached_signal-read key s = ground arith

  -- The cache after a message with a value, a key and a named action.
  cached-make :
      (j : Key) (k : String) (v : V) (a : Action) (s : CachingStore V)
      → name ≢ ""
      → k ≢ ""
      → IsNamed a
      → cached name j (emit (make_message name (some k) (some v) a) s) ≡ (
          if option_beq (some k) j
          then after a (make_message name (some k) (some v) a)
          else cached name j s)
  cached-make j k v a s hn hk ha =
      cached-emit name j (make_message name (some k) (some v) a) s
      ∙ rw (
        signal_name-make name (some k) v a hn,
        controls-make name k (some v) a hk ha,
        (eq_iff name name).1 refl,
      )

  -- A message without a value is lost: it sets no signal, whatever its action is.
  emit_empty :
      (key : Key) (a : Action) (s : CachingStore V)
      → ((emit (make_message name key none a) s).cache ≡ s.cache)
        × ((emit (make_message name key none a) s).base.calls ≡ s.base.calls)
  unfolding emit make_message signal_name
  emit_empty key a s =
      (refl, calls-emit (make_message name key none a) s.base ∙ append-nil s.base.calls)

  module _ ⦃e : Eq V⦄ where
    chosen_action-read :
        (k : String) (value : Option V) (s : CachingStore V)
        → k ≢ ""
        → chosen_action d arrive unset name (some k) value none s
          ≡ infer_action value (read unset name (cached name (some k) s))
    unfolding chosen_action is_given
    chosen_action-read k value s hk =
        rw (str_ne k "" hk) (ap (infer_action value) (get_cached_signal-read (some k) s))

    -- What a reader gets after `emit_mapping` with a value and no action, for a signal name and a
    -- key that are not empty: the value under its key, and what was there before under every other
    -- key.
    pub read-emit_mapping :
        (j : Key) (k : String) (v : V) (s : CachingStore V)
        → name ≢ ""
        → k ≢ ""
        → read unset name
            (cached name j (emit_mapping d arrive unset name (some k) (some v) none s))
          ≡ (if option_beq (some k) j then some v else read unset name (cached name j s))
    unfolding emit_mapping
    read-emit_mapping j k v s hn hk =
        ap (λ a. read unset name (cached name j (emit_action name (some k) (some v) a s)))
          (chosen_action-read k (some v) s hk)
        ∙ by_current (cached name (some k) s) refl
      where
        read-if :
            (a : Action) (b : Bool) (o : Option (Message V))
            → read unset name (if b then some (make_message name (some k) (some v) a) else o)
              ≡ (if b then some v else read unset name o)
        read-if a true o = ap some (field_of-make unset name (some k) v a)
        read-if a false o = refl

        kept :
            (option_beq (some k) j ≡ true → some k ≡ j)
            → read unset name (cached name (some k) s) ≡ some v
            → read unset name (cached name j s)
              ≡ (if option_beq (some k) j then some v else read unset name (cached name j s))
        kept eq h = elim (Bool-cases (option_beq (some k) j)) [
          | inl t ↦ rw t (ap (λ i. read unset name (cached name i s)) (sym (eq t)) ∙ h)
          | inr f ↦ rw f
        ]

        emitted :
            (a : Action)
            → IsNamed a
            → ((m : Message V) → after a m ≡ some m)
            → read unset name (cached name j (emit (make_message name (some k) (some v) a) s))
              ≡ (if option_beq (some k) j then some v else read unset name (cached name j s))
        emitted a i r =
            ap (read unset name) (
              cached-make j k v a s hn hk i
              ∙ ap (λ x. if option_beq (some k) j then x else cached name j s) (r _))
            ∙ read-if a (option_beq (some k) j) (cached name j s)

        by_current :
            (o : Option (Message V))
            → cached name (some k) s ≡ o
            → read unset name (
                cached name j (
                  emit_action name (some k) (some v) (infer_action (some v) (read unset name o)) s))
              ≡ (if option_beq (some k) j then some v else read unset name (cached name j s))
        by_current none h = emitted addition tt (λ m. refl)
        by_current (some m) h = elim (Bool-cases (e.beq v (field_of unset name m))) [
          | inl same ↦ rw same (
              kept ((option_beq_reflects (some k) j).0) (
                ap (read unset name) h
                ∙ ap some (sym ((e.beq_reflects v (field_of unset name m)).0 same))))
          | inr differs ↦ rw differs (emitted update tt (λ x. refl))
        ]
