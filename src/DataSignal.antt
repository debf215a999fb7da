-- ===== src/DataSignal.antt =====
-- `DataSignal` of src/core/python/core/signalstore/datasignal.py: one signal with slots by handle,
-- and the last value for slots that connect late. Slots are
-- functions, which have a name.
pub mod Current
use common_core.Base.{
  ℕ, String, Bool, true, false, Option, none, some, List, [], ◌∷◌, ◌++◌, length, map, str_eq,
  if◌then◌else◌, eq_string,
}
use common_core.Base.Dict.{Dict, get, put, remove}

-- A value may be None. The calls to slots are kept, each with the handle.
pub record DataSignal (V : Type 0) : Type 0 where
  pub use_cache : Bool
  pub slots : Dict String ℕ
  pub cached : Option V
  pub calls : List (String × ℕ × Option V)

-- The handle that is given, or a generated one
abbrev handle_for : Option String → String → String
handle_for none fresh = fresh
handle_for (some handle) fresh = if str_eq handle "" then fresh else handle

module _ {V : Type 0} where
  abbrev pub new_signal : Bool → DataSignal V
  new_signal use_cache = record { use_cache = use_cache; slots = []; cached = none; calls = [] }

  unfoldable pub connection_count : DataSignal V → ℕ
  connection_count s = length s.slots

  -- `_emit_to`: what the slot raises is caught.
  abbrev pub emit_to : String → ℕ → Option V → DataSignal V → DataSignal V
  emit_to handle slot payload s = record s { calls = s.calls ++ (handle, slot, payload) ∷ [] }

  abbrev pub emit_cached_to : String → ℕ → Option V → DataSignal V → DataSignal V
  emit_cached_to handle slot none s = s
  emit_cached_to handle slot (some v) s = emit_to handle slot (some v) s

  abbrev pub connect_as : String → ℕ → DataSignal V → DataSignal V
  connect_as handle slot s =
      let joined = record s { slots = put handle slot s.slots } in
      if s.use_cache then emit_cached_to handle slot s.cached joined else joined

  -- `connect(slot, handle)`, with the handle that it returns. `fresh` is what `uuid1` generates.
  unfoldable pub connect : ℕ → Option String → String → DataSignal V → DataSignal V × String
  connect slot handle fresh s = let h = handle_for handle fresh in (connect_as h slot s, h)

  -- `disconnect(handle)`
  unfoldable pub disconnect : String → DataSignal V → DataSignal V × Bool
  disconnect handle s = (
    record s { slots = remove handle s.slots },
    elim (get handle s.slots) [ none ↦ false | some slot ↦ true ],
  )

  unfoldable pub emit_each_to : Dict String ℕ → Option V → DataSignal V → DataSignal V
  emit_each_to [] payload s = s
  emit_each_to ((handle, slot) ∷ slots) payload s =
      emit_each_to slots payload (emit_to handle slot payload s)

  -- `emit(data)`
  unfoldable pub emit : Option V → DataSignal V → DataSignal V
  unfolding emit_each_to
  emit payload s =
      let told = emit_each_to s.slots payload s in
      record told { cached = if s.use_cache then payload else s.cached }
