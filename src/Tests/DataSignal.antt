-- ===== src/Tests/DataSignal.antt =====
-- A signal with a cache.
use common_core.Base.{ℕ, ◌≡◌, refl, true, some, [], ◌∷◌, eq_string}
use common_core.Base.Dict.{get, put}
use common_core.DataSignal.{DataSignal, new_signal, connect, emit, emit_each_to}
use common_core.DataSignal.Current.{
  none_yet, then_one, emitted, connected, last_call, Steps-IsCurrent,
}

abbrev connected_late : DataSignal ℕ
connected_late =
    (connect 2 (some "late") "" (emit (some 7) (connect 1 (some "early") "" (new_signal true)).0)).0

calls_run : connected_late.calls ≡ ("early", 1, some 7) ∷ ("late", 2, some 7) ∷ []
unfolding connect emit emit_each_to put get
calls_run = refl

Steps-IsCurrent_example : last_call "late" connected_late.calls ≡ some (2, some 7)
unfolding connect emit emit_each_to put get
Steps-IsCurrent_example =
    Steps-IsCurrent
      (then_one (then_one (then_one none_yet (connected 1 (some "early") "")) (emitted (some 7)))
        (connected 2 (some "late") ""))
      7 refl "late" 2 refl
