-- ===== src/Signals/Connected.antt =====
-- The slots of a `SignalStore` of src/core/python/protobuf/signal/signalstore.py in the order of their
-- connection.
use common_core.Base.Result.{ok, raised}
use common_core.Base.{
  ℕ, ◌≡◌, refl, sym, ap, ◌∙◌, inl, inr, Bool-cases, String, true, false, some, List, [], ◌∷◌, ◌++◌,
  str_eq, if◌then◌else◌, eq_string, eq_iff,
}
use mathlib.Core.List.{append-nil, append_assoc}
use common_core.Base.Dict.{get, get-put}
use common_core.Signals.Message.{Message, Descriptor, signal_names, contains, signal_name}
use common_core.Signals.Store.{
  Slot, payload_to, Result, SignalStore, empty_store, all_signals, slots_of, add_slot, connect_all,
  connect_signal, connect_signal_data, emit,
}
use common_core.Signals.Delivery.{calls_with, receivers_of, calls-emit}

-- A call of `connect_signal`, `connect_signal_data` or `connect_all`
pub data Connection : Type 0 where
  to_signal : String → Slot → Connection
  to_data : String → ℕ → Connection
  to_all : Slot → Connection

-- The slot that a connection adds for the signal of a name: none for another signal, and none where
-- the descriptor has no such signal, so that the call raises AttributeError.
abbrev pub given : Descriptor → String → Connection → List Slot
given d name (to_signal n slot) =
    if contains n (signal_names d) then if str_eq n name then slot ∷ [] else [] else []
given d name (to_data n f) =
    if contains n (signal_names d) then if str_eq n name then payload_to f n ∷ [] else [] else []
given d name (to_all slot) = []

abbrev pub given_each : Descriptor → String → List Connection → List Slot
given_each d name [] = []
given_each d name (c ∷ connections) = given d name c ++ given_each d name connections

-- The slots that are connected to all signals
abbrev pub given_all : List Connection → List Slot
given_all [] = []
given_all (to_all slot ∷ connections) = slot ∷ given_all connections
given_all (_ ∷ connections) = given_all connections

module _ {V : Type 0} where
  -- What is left where a call raised an error is the store as it was.
  abbrev attempt : SignalStore V → Result (SignalStore V) → SignalStore V
  attempt s (raised e) = s
  attempt s (ok t) = t

  abbrev pub connect_one : Descriptor → Connection → SignalStore V → SignalStore V
  connect_one d (to_signal name slot) s = attempt s (connect_signal d name slot s)
  connect_one d (to_data name f) s = attempt s (connect_signal_data d name f s)
  connect_one d (to_all slot) s = connect_all slot s

  abbrev pub connect_each : Descriptor → List Connection → SignalStore V → SignalStore V
  connect_each d [] s = s
  connect_each d (c ∷ connections) s = connect_each d connections (connect_one d c s)

  get-add_slot :
      (name n : String) (slot : Slot) (s : SignalStore V)
      → slots_of (get name (add_slot n slot s).slots)
        ≡ slots_of (get name s.slots) ++ (if str_eq n name then slot ∷ [] else [])
  unfolding add_slot
  get-add_slot name n slot s =
      ap slots_of (get-put name n (slots_of (get n s.slots) ++ slot ∷ []) s.slots)
      ∙ elim (Bool-cases (str_eq n name)) [
        | inl t ↦ rw t (ap (λ k. slots_of (get k s.slots) ++ slot ∷ []) ((eq_iff n name).0 t))
        | inr f ↦ rw f (sym (append-nil (slots_of (get name s.slots))))
      ]

  get-connect_one :
      (d : Descriptor) (name : String) (c : Connection) (s : SignalStore V)
      → str_eq all_signals name ≡ false
      → slots_of (get name (connect_one d c s).slots)
        ≡ slots_of (get name s.slots) ++ given d name c
  unfolding connect_signal connect_signal_data connect_all
  get-connect_one d name (to_signal n slot) s h = elim (Bool-cases (contains n (signal_names d))) [
    | inl t ↦ rw t (get-add_slot name n slot s)
    | inr f ↦ rw f (sym (append-nil (slots_of (get name s.slots))))
  ]
  get-connect_one d name (to_data n f) s h = elim (Bool-cases (contains n (signal_names d))) [
    | inl t ↦ rw t (get-add_slot name n (payload_to f n) s)
    | inr g ↦ rw g (sym (append-nil (slots_of (get name s.slots))))
  ]
  get-connect_one d name (to_all slot) s h =
      get-add_slot name all_signals slot s
      ∙ ap (λ b. slots_of (get name s.slots) ++ (if b then slot ∷ [] else [])) h

  get-connect_each :
      (d : Descriptor) (name : String) (connections : List Connection) (s : SignalStore V)
      → str_eq all_signals name ≡ false
      → slots_of (get name (connect_each d connections s).slots)
        ≡ slots_of (get name s.slots) ++ given_each d name connections
  get-connect_each d name [] s h = sym (append-nil (slots_of (get name s.slots)))
  get-connect_each d name (c ∷ connections) s h =
      get-connect_each d name connections (connect_one d c s) h
      ∙ ap (λ l. l ++ given_each d name connections) (get-connect_one d name c s h)
      ∙ append_assoc (slots_of (get name s.slots)) (given d name c) (given_each d name connections)

  all-attempt :
      (d : Descriptor) (n : String) (slot : Slot) (s : SignalStore V)
      → contains all_signals (signal_names d) ≡ false
      → contains n (signal_names d) ≡ true
      → slots_of (get all_signals (add_slot n slot s).slots) ≡ slots_of (get all_signals s.slots)
  all-attempt d n slot s h t =
      get-add_slot all_signals n slot s ∙ elim (Bool-cases (str_eq n all_signals)) [
        | inl e ↦ cc (h, t, (eq_iff n all_signals).0 e)
        | inr f ↦ rw f (append-nil (slots_of (get all_signals s.slots)))
      ]

  all-connect_each :
      (d : Descriptor) (connections : List Connection) (s : SignalStore V)
      → contains all_signals (signal_names d) ≡ false
      → slots_of (get all_signals (connect_each d connections s).slots)
        ≡ slots_of (get all_signals s.slots) ++ given_all connections
  unfolding connect_signal connect_signal_data connect_all
  all-connect_each d [] s h = sym (append-nil (slots_of (get all_signals s.slots)))
  all-connect_each d (to_signal n slot ∷ connections) s h =
      all-connect_each d connections (connect_one d (to_signal n slot) s) h
      ∙ ap (λ l. l ++ given_all connections)
          (elim (Bool-cases (contains n (signal_names d))) [
            | inl t ↦ rw t (all-attempt d n slot s h t)
            | inr f ↦ rw f refl
          ])
  all-connect_each d (to_data n f ∷ connections) s h =
      all-connect_each d connections (connect_one d (to_data n f) s) h
      ∙ ap (λ l. l ++ given_all connections)
          (elim (Bool-cases (contains n (signal_names d))) [
            | inl t ↦ rw t (all-attempt d n (payload_to f n) s h t)
            | inr f ↦ rw f refl
          ])
  all-connect_each d (to_all slot ∷ connections) s h =
      all-connect_each d connections (connect_one d (to_all slot) s) h
      ∙ ap (λ l. l ++ given_all connections) (get-add_slot all_signals all_signals slot s)
      ∙ append_assoc (slots_of (get all_signals s.slots)) (slot ∷ []) (given_all connections)

  one_call :
      (d : Descriptor) (c : Connection) (s : SignalStore V) → (connect_one d c s).calls ≡ s.calls
  unfolding connect_signal connect_signal_data connect_all add_slot
  one_call d (to_signal n slot) s = elim (Bool-cases (contains n (signal_names d))) [
    | inl t ↦ rw t refl
    | inr f ↦ rw f refl
  ]
  one_call d (to_data n f) s = elim (Bool-cases (contains n (signal_names d))) [
    | inl t ↦ rw t refl
    | inr g ↦ rw g refl
  ]
  one_call d (to_all slot) s = refl

  no_calls :
      (d : Descriptor) (connections : List Connection) (s : SignalStore V)
      → (connect_each d connections s).calls ≡ s.calls
  no_calls d [] s = refl
  no_calls d (c ∷ connections) s = no_calls d connections (connect_one d c s) ∙ one_call d c s

  -- After any calls of `connect_signal`, `connect_signal_data` and `connect_all` on a new store, some
  -- of which may have raised an error, a message whose signal is set, where no signal is called `*`,
  -- is handed to the slots that were connected to its signal, in the order of these calls, then to the
  -- slots that were connected to all signals, in the order of these calls, once for each call, and to
  -- no other slot.
  pub calls-emit_connected :
      (d : Descriptor) (connections : List Connection) (m : Message V) (name : String)
      → signal_name m ≡ some name
      → str_eq all_signals name ≡ false
      → contains all_signals (signal_names d) ≡ false
      → (emit m (connect_each d connections empty_store)).calls
        ≡ calls_with m (given_each d name connections ++ given_all connections)
  unfolding get
  calls-emit_connected d connections m name e h g =
      calls-emit m (connect_each d connections empty_store)
      ∙ ap
          (λ l.
            l
            ++ calls_with m (receivers_of (signal_name m) (connect_each d connections empty_store)))
          (no_calls d connections empty_store)
      ∙ ap (λ o. calls_with m (receivers_of o (connect_each d connections empty_store))) e
      ∙ ap
          (λ l.
            calls_with m
              (l ++ slots_of (get all_signals (connect_each d connections empty_store).slots)))
          (get-connect_each d name connections empty_store h)
      ∙ ap (λ l. calls_with m (given_each d name connections ++ l))
          (all-connect_each d connections empty_store g)
