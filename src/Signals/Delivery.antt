-- ===== src/Signals/Delivery.antt =====
-- Which slots a signal reaches, and what disconnecting a slot does.
use common_core.Base.{
  String, ◌≡◌, refl, sym, ap, ◌∙◌, false, Option, none, some, List, [], ◌∷◌, ◌++◌, map, eq_string,
}
use mathlib.Core.List.{append-nil, append_assoc, map-append}
use common_core.Base.Dict.{get}
use common_core.Signals.Message.{Action, no_action, Message, signal_name, mapping_controls}
use common_core.Signals.Store.{
  Slot, callback, payload_to, SignalStore, all_signals, slots_of, remove_text, disconnect_signal,
  emit_to, emit_to_each, deliver, set_complete, emit,
}

remove_text-none : (name : String) (slots : List Slot) → remove_text name slots ≡ none
unfolding remove_text
remove_text-none name [] = refl
remove_text-none name (callback n ∷ slots) = rw (remove_text-none name slots)
remove_text-none name (payload_to n f ∷ slots) = rw (remove_text-none name slots)

not_found :
    (name : String) (o : Option (List Slot))
    → elim o [ none ↦ none | some l ↦ remove_text name l ] ≡ none
not_found name none = refl
not_found name (some l) = remove_text-none name l

module _ {V : Type 0} where
  abbrev pub calls_with : Message V → List Slot → List (Slot × Message V)
  calls_with m slots = map (λ slot. (slot, m)) slots

  emit_to_each_lem :
      (slots : List Slot) (m : Message V) (s : SignalStore V)
      → emit_to_each slots m s ≡ record s { calls = s.calls ++ calls_with m slots }
  unfolding emit_to_each
  emit_to_each_lem [] m s = ap (λ c. record s { calls = c }) (sym (append-nil s.calls))
  emit_to_each_lem (slot ∷ slots) m s =
      emit_to_each_lem slots m (emit_to slot m s)
      ∙ ap (λ c. record s { calls = c })
          (append_assoc s.calls ((slot, m) ∷ []) (calls_with m slots))

  -- The slots that a message is for: those of its signal, then those of all signals.
  abbrev pub receivers_of : Option String → SignalStore V → List Slot
  receivers_of none s = []
  receivers_of (some name) s = slots_of (get name s.slots) ++ slots_of (get all_signals s.slots)

  abbrev pub receivers : Message V → SignalStore V → List Slot
  receivers m s = receivers_of (signal_name m) s

  calls-deliver :
      (o : Option String) (m : Message V) (s : SignalStore V)
      → (deliver o m s).calls ≡ s.calls ++ calls_with m (receivers_of o s)
  calls-deliver none m s = sym (append-nil s.calls)
  calls-deliver (some name) m s =
      let named = slots_of (get name s.slots) in
      let any_name = slots_of (get all_signals s.slots) in
      simp (emit_to_each_lem, map-append, append_assoc)

  calls-set_complete : (a : Action) (s : SignalStore V) → (set_complete a s).calls ≡ s.calls
  calls-set_complete no_action s = refl
  calls-set_complete _ s = refl

  pub slots-emit : (m : Message V) (s : SignalStore V) → (emit m s).slots ≡ s.slots
  unfolding emit
  slots-emit m s =
      completed (mapping_controls m).0 (deliver (signal_name m) m s) ∙ delivered (signal_name m)
    where
      completed : (a : Action) (s : SignalStore V) → (set_complete a s).slots ≡ s.slots
      completed no_action s = refl
      completed _ s = refl

      delivered : (o : Option String) → (deliver o m s).slots ≡ s.slots
      delivered none = refl
      delivered (some name) = simp emit_to_each_lem

  -- A message reaches the slots of its signal and then those of all signals, each once and in the
  -- order in which they were connected, and no other slot; it reaches none if no signal is set.
  pub calls-emit :
      (m : Message V) (s : SignalStore V)
      → (emit m s).calls ≡ s.calls ++ calls_with m (receivers m s)
  unfolding emit
  calls-emit m s =
      calls-set_complete (mapping_controls m).0 (deliver (signal_name m) m s)
      ∙ calls-deliver (signal_name m) m s

  -- Disconnecting a given slot never finds it: the store stays as it is, and the answer is False.
  pub disconnect_signal-keeps :
      (name : String) (slot : Slot) (s : SignalStore V)
      → disconnect_signal name (some slot) s ≡ (s, false)
  unfolding disconnect_signal
  disconnect_signal-keeps name slot s = rw (not_found name (get name s.slots))
