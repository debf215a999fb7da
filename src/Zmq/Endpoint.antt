-- ===== src/Zmq/Endpoint.antt =====
-- The life of an endpoint: `Endpoint` of src/core/python/messaging/zmq/basic/endpoint.py with
-- `initialize`, `deinitialize`, `connect`, `disconnect`, `bind`, `unbind`, and the use that
-- `Responder` of src/core/python/messaging/zmq/basic/responder.py makes of them. The calls that the
-- ZeroMQ socket accepted are kept in the endpoint.
pub mod Balanced
pub mod Steps
use common_core.Base.Text.{Text}
use common_core.Base.{Bool, true, false, Option, none, some, List, [], ◌∷◌, ◌++◌, if◌then◌else◌}
use common_core.Base.Result.{Result, ok, raised}
use common_core.Zmq.Address.{
  Component, Key, is_empty, sanitized_host_address, sanitized_bind_address,
}
use common_core.Zmq.Address

pub data Role : Type 0 where
  undefined host satellite : Role

pub data SocketCall : Type 0 where
  connects disconnects binds unbinds : Text → SocketCall

pub record Endpoint : Type 0 where
  pub role : Role
  pub provided_address : Option Text
  pub host_address : Option Text
  pub bound_address : Option Text
  pub calls : List SocketCall

-- `Endpoint.__init__`
unfoldable pub new_endpoint : Role → Option Text → Endpoint
new_endpoint role address = record {
  role = role;
  provided_address = address;
  host_address = none;
  bound_address = none;
  calls = [];
}

-- The exceptions TypeError, from an address, and ZMQError, from the socket
pub data Failure : Type 0 where
  invalid_address : Address.Failure → Failure
  refused : SocketCall → Failure

-- Whether an address is set: `if self.bound_address`
abbrev pub is_set : Option Text → Bool
is_set none = false
is_set (some []) = false
is_set (some (c ∷ cs)) = true

-- One operation after another, unless the first raises an exception
abbrev pub and_then :
    Endpoint × Option Failure → (Endpoint → Endpoint × Option Failure) → Endpoint × Option Failure
and_then (e, none) f = f e
and_then (e, some x) f = (e, some x)

-- The second operation also after an exception: `try ... finally`
abbrev pub and_finally :
    Endpoint × Option Failure → (Endpoint → Endpoint × Option Failure) → Endpoint × Option Failure
and_finally (e, none) f = f e
and_finally (e, some x) f = ((f e).0, some x)

-- The settings of the channel, and which calls the socket accepts after those that it accepted
module _ (setting : Key → Component → Component)
    (accepts : List SocketCall → SocketCall → Bool) where
  unfoldable pub connect_to : Result Address.Failure Text → Endpoint → Endpoint × Option Failure
  connect_to (raised x) e = (e, some (invalid_address x))
  connect_to (ok a) e =
      if accepts e.calls (connects a)
      then (record e { host_address = some a; calls = e.calls ++ connects a ∷ [] }, none)
      else (e, some (refused (connects a)))

  -- `connect(address)`
  unfoldable pub connect : Option Text → Endpoint → Endpoint × Option Failure
  unfolding connect_to
  connect address e =
      if is_set e.host_address
      then (e, none)
      else connect_to (sanitized_host_address setting address e.provided_address) e

  unfoldable pub disconnect_from : Option Text → Endpoint → Endpoint × Option Failure
  disconnect_from none e = (e, none)
  disconnect_from (some []) e = (e, none)
  disconnect_from (some (c ∷ cs)) e =
      let a = c ∷ cs in
      if accepts e.calls (disconnects a)
      then (record e { host_address = none; calls = e.calls ++ disconnects a ∷ [] }, none)
      else (record e { host_address = none }, some (refused (disconnects a)))

  -- `disconnect()`
  unfoldable pub disconnect : Endpoint → Endpoint × Option Failure
  unfolding disconnect_from
  disconnect e = disconnect_from e.host_address e

  unfoldable pub bind_to : Result Address.Failure Text → Endpoint → Endpoint × Option Failure
  bind_to (raised x) e = (e, some (invalid_address x))
  bind_to (ok a) e =
      if accepts e.calls (binds a)
      then (record e { bound_address = some a; calls = e.calls ++ binds a ∷ [] }, none)
      else (e, some (refused (binds a)))

  -- `bind(address)`
  unfoldable pub bind : Option Text → Endpoint → Endpoint × Option Failure
  unfolding bind_to
  bind address e =
      if is_set e.bound_address
      then (e, none)
      else bind_to (sanitized_bind_address setting address e.provided_address) e

  unfoldable pub unbind_from : Option Text → Endpoint → Endpoint × Option Failure
  unbind_from none e = (e, none)
  unbind_from (some []) e = (e, none)
  unbind_from (some (c ∷ cs)) e =
      let a = c ∷ cs in
      if accepts e.calls (unbinds a)
      then (record e { bound_address = none; calls = e.calls ++ unbinds a ∷ [] }, none)
      else (record e { bound_address = none }, some (refused (unbinds a)))

  -- `unbind()`
  unfoldable pub unbind : Endpoint → Endpoint × Option Failure
  unfolding unbind_from
  unbind e = unbind_from e.bound_address e

  unfoldable pub initialize_as : Role → Endpoint → Endpoint × Option Failure
  unfolding bind connect
  initialize_as undefined e = (e, none)
  initialize_as host e = bind none e
  initialize_as satellite e = connect none e

  -- `initialize()`
  unfoldable pub initialize : Endpoint → Endpoint × Option Failure
  unfolding initialize_as
  initialize e = initialize_as e.role e

  unfoldable pub deinitialize_as : Role → Endpoint → Endpoint × Option Failure
  unfolding unbind disconnect
  deinitialize_as undefined e = (e, none)
  deinitialize_as host e = unbind e
  deinitialize_as satellite e = disconnect e

  -- `deinitialize()`
  unfoldable pub deinitialize : Endpoint → Endpoint × Option Failure
  unfolding deinitialize_as
  deinitialize e = deinitialize_as e.role e

  -- What `Responder.start` does before its thread starts, and `run` before its loop
  unfoldable pub open_responder : Endpoint → Endpoint × Option Failure
  unfolding initialize bind
  open_responder e = and_then (initialize e) (bind none)

  -- What `Responder.stop` does once the thread has ended
  unfoldable pub stop_responder : Endpoint → Endpoint × Option Failure
  unfolding unbind deinitialize
  stop_responder e = and_then (unbind e) deinitialize
