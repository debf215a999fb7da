-- ===== src/Tests/Endpoint.antt =====
-- An endpoint that is bound, bound again, and stopped.
use common_core.Base.Text.{Text}
use common_core.Base.{◌≡◌, refl, Bool, true, false, none, List, [], ◌∷◌, drop_while}
use common_core.Base.Decimal.{digits}
use common_core.Zmq.Address.{sanitized_bind_address}
use common_core.Zmq.Endpoint.{
  host, SocketCall, connects, binds, Endpoint, new_endpoint, open_responder, stop_responder, unbind,
  disconnect,
}
use common_core.Zmq.Endpoint.Balanced.{RefusesEmpty, IsBalanced, Unbinds, Disconnects}
use common_core.Zmq.Endpoint.Steps.{none_yet, then_one, opened, stopped, Steps-IsBalanced}
use common_core.Tests.Address.{no_settings}

-- A socket that refuses the empty address only
abbrev accepts_call : SocketCall → Bool
accepts_call (binds []) = false
accepts_call (connects []) = false
accepts_call call = true

abbrev accepts : List SocketCall → SocketCall → Bool
accepts calls call = accepts_call call

accepts-RefusesEmpty : RefusesEmpty accepts
accepts-RefusesEmpty = record { no_binds = λ calls. refl; no_connects = λ calls. refl }

abbrev responder : Endpoint
responder = new_endpoint host none

abbrev after_bind : Endpoint
after_bind = (open_responder no_settings accepts responder).0

-- "tcp://*:5555"
abbrev address : Text
address = b't' ∷ b'c' ∷ b'p' ∷ b':' ∷ b'/' ∷ b'/' ∷ b'*' ∷ b':' ∷ b'5' ∷ b'5' ∷ b'5' ∷ b'5' ∷ []

after_bind_run : after_bind.calls ≡ binds address ∷ []
unfolding open_responder new_endpoint digits sanitized_bind_address drop_while
after_bind_run = refl

stop_run : (stop_responder no_settings accepts after_bind).1 ≡ none
unfolding open_responder stop_responder new_endpoint digits sanitized_bind_address drop_while
stop_run = refl

abbrev after_stop : Endpoint
after_stop = (stop_responder no_settings accepts after_bind).0

Steps-IsBalanced_example :
    IsBalanced after_stop
    × Unbinds (unbind no_settings accepts after_stop)
    × Disconnects (disconnect no_settings accepts after_stop)
Steps-IsBalanced_example =
    Steps-IsBalanced no_settings accepts accepts-RefusesEmpty host none
      (then_one (then_one none_yet opened) (stopped stop_run))
