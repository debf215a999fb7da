-- ===== src/Tests/Switchboard.antt =====
-- A board with few switches.
use common_core.Base.{ℕ, ◌≡◌, refl, String, some, List, [], ◌∷◌, select, eq_string, eq_iff, arith}
use common_core.Base.Dict.{get, put}
use common_core.Signals.Message.{addition, update, removal}
use common_core.Switchboard.{
  Switch, specified, reported, Notice, Board, new_switch, take_over, on_signals, on_signal,
  invoke_callbacks,
}
use common_core.Switchboard.Announced.{get-on_signals}

-- A specification is the list of aliases, a status a number.
abbrev same : List String → List String
same aliases = aliases

abbrev door : Switch (List String) ℕ
door = record {
  name = "door";
  specification = "gate" ∷ [];
  status = 1;
  callbacks = ("gui", 7) ∷ [];
}

abbrev board : Board (List String) ℕ
board = record { switches = ("door", door) ∷ []; invoked = []; requests = [] }

abbrev notices : List (Notice (List String) ℕ)
notices =
    (record { action = addition; key = "lamp"; payload = specified ("light" ∷ []) })
    ∷ (record { action = update; key = "door"; payload = reported 4 })
    ∷ (record { action = update; key = "lamp"; payload = reported 2 })
    ∷ (record { action = removal; key = "door"; payload = reported 0 })
    ∷ []

-- The callback hears of the update and of the removal.
invoked_run :
    (on_signals [] 0 notices board).invoked
    ≡ (7, record door { status = 4 }) ∷ (7, record door { status = 0 }) ∷ []
unfolding on_signals on_signal take_over new_switch invoke_callbacks get put
invoked_run = refl

get-on_signals_example :
    get "lamp" (on_signals [] 0 notices board).switches
    ≡ some (record { name = "lamp"; specification = "light" ∷ []; status = 2; callbacks = [] })
unfolding select take_over new_switch get
get-on_signals_example =
    get-on_signals [] 0 "lamp" notices board (λ e. ground (arith, eq_iff "lamp" ""))
