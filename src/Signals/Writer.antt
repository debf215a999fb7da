-- ===== src/Signals/Writer.antt =====
-- `SignalWriter` of src/core/python/messaging/zmq/protobuf/signalwriter.py, which forwards the signals
-- of a store to a publisher.
use common_core.Base.{
  ◌≡◌, refl, ap, ◌∙◌, Bool, true, false, some, List, [], ◌∷◌, ◌++◌, if◌then◌else◌, eq_string,
}
use mathlib.Core.List.{append_assoc}
use common_core.Base.Dict.{get, get-put_self}
use common_core.Signals.Store.{
  Slot, SignalStore, all_signals, slots_of, connect_all, disconnect_all,
}
use common_core.Signals.Delivery.{disconnect_signal-keeps}

-- The writer, with the store that it listens to. `write_proto` is its slot.
pub record SignalWriter (V : Type 0) : Type 0 where
  pub write_proto : Slot
  pub started : Bool
  pub signal_store : SignalStore V

module _ {V : Type 0} where
  unfoldable pub start : SignalWriter V → SignalWriter V
  start w =
      if w.started
      then w
      else record w { signal_store = connect_all w.write_proto w.signal_store; started = true }

  unfoldable pub stop : SignalWriter V → SignalWriter V
  stop w =
      if w.started
      then (record w {
        signal_store = (disconnect_all (some w.write_proto) w.signal_store).0;
        started = false;
      })
      else w

  -- The slots that every signal reaches.
  abbrev pub listeners : SignalWriter V → List Slot
  listeners w = slots_of (get all_signals w.signal_store.slots)

  listeners-connect :
      (slot : Slot) (s : SignalStore V)
      → slots_of (get all_signals (connect_all slot s).slots)
        ≡ slots_of (get all_signals s.slots) ++ slot ∷ []
  unfolding connect_all
  listeners-connect slot s = ap slots_of (get-put_self all_signals _ s.slots)

  connected : SignalWriter V → SignalWriter V
  connected w = record w { signal_store = connect_all w.write_proto w.signal_store; started = true }

  disconnected : SignalWriter V → SignalWriter V
  disconnected w = record w { started = false }

  start-stopped : (w : SignalWriter V) → w.started ≡ false → start w ≡ connected w
  unfolding start connected
  start-stopped w h = ap (λ b. if b then w else connected w) h

  stop-connected : (w : SignalWriter V) → stop (connected w) ≡ disconnected (connected w)
  unfolding stop connected disconnected disconnect_all
  stop-connected w =
      ap (λ r. record w { signal_store = r.0; started = false })
        (disconnect_signal-keeps all_signals w.write_proto (connected w).signal_store)

  -- If a writer that is not started is started, stopped and started again, its slot is connected to
  -- all signals twice.
  restart_duplicates :
      (w : SignalWriter V)
      → w.started ≡ false
      → listeners (start (stop (start w))) ≡ listeners w ++ w.write_proto ∷ w.write_proto ∷ []
  unfolding connected disconnected
  restart_duplicates w h =
      let once = connected w in
      ap (λ x. listeners (start (stop x))) (start-stopped w h)
      ∙ ap (λ x. listeners (start x)) (stop-connected w)
      ∙ ap listeners (start-stopped (disconnected once) refl)
      ∙ listeners-connect w.write_proto once.signal_store
      ∙ ap (λ l. l ++ w.write_proto ∷ []) (listeners-connect w.write_proto w.signal_store)
      ∙ append_assoc (listeners w) (w.write_proto ∷ []) (w.write_proto ∷ [])
