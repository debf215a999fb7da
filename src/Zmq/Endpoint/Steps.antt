-- ===== src/Zmq/Endpoint/Steps.antt =====
-- Any use of an endpoint, and what it keeps true.
use common_core.Base.Text.{Text}
use common_core.Base.{◌≡◌, refl, Bool, Option, none, some, List}
use common_core.Zmq.Address.{Component, Key}
use common_core.Zmq.Endpoint.{
  Role, undefined, host, satellite, SocketCall, Endpoint, new_endpoint, Failure, and_then, connect,
  disconnect, bind, unbind, initialize_as, initialize, deinitialize_as, deinitialize,
  open_responder, stop_responder,
}
use common_core.Zmq.Endpoint.Balanced.{
  RefusesEmpty, IsBalanced, connect-IsBalanced, bind-IsBalanced, disconnect_from-IsBalanced,
  unbind_from-IsBalanced, Unbinds, Disconnects, unbind_from-Unbinds, disconnect_from-Disconnects,
}

module _ (setting : Key → Component → Component)
    (accepts : List SocketCall → SocketCall → Bool) where
  -- One operation: one that takes an address may raise an exception, one that gives it back must not.
  pub data Step (e : Endpoint) : Endpoint → Type 0 where
    connected : (address : Option Text) → Step e (connect setting accepts address e).0
    disconnected : (disconnect setting accepts e).1 ≡ none → Step e (disconnect setting accepts e).0
    bound : (address : Option Text) → Step e (bind setting accepts address e).0
    unbound : (unbind setting accepts e).1 ≡ none → Step e (unbind setting accepts e).0
    initialized : Step e (initialize setting accepts e).0
    deinitialized :
        (deinitialize setting accepts e).1 ≡ none → Step e (deinitialize setting accepts e).0
    opened : Step e (open_responder setting accepts e).0
    stopped :
        (stop_responder setting accepts e).1 ≡ none → Step e (stop_responder setting accepts e).0

  pub data Steps (e : Endpoint) : Endpoint → Type 0 where
    none_yet : Steps e e
    then_one : {t u : Endpoint} → Steps e t → Step t u → Steps e u

  and_then-IsBalanced :
      (r : Endpoint × Option Failure) (f : Endpoint → Endpoint × Option Failure)
      → IsBalanced r.0
      → ((t : Endpoint) → IsBalanced t → IsBalanced (f t).0)
      → IsBalanced (and_then r f).0
  and_then-IsBalanced (e, none) f b keep = keep e b
  and_then-IsBalanced (e, some x) f b keep = b

  both-IsBalanced :
      (r : Endpoint × Option Failure) (f : Endpoint → Endpoint × Option Failure)
      → (and_then r f).1 ≡ none
      → (r.1 ≡ none → IsBalanced r.0)
      → ((t : Endpoint) → (f t).1 ≡ none → IsBalanced t → IsBalanced (f t).0)
      → IsBalanced (and_then r f).0
  both-IsBalanced (e, none) f h b keep = keep e h (b refl)
  both-IsBalanced (e, some x) f h b keep = cc h

  module _ (refuses : RefusesEmpty accepts) where
    unbind-IsBalanced :
        (e : Endpoint)
        → (unbind setting accepts e).1 ≡ none
        → IsBalanced e
        → IsBalanced (unbind setting accepts e).0
    unfolding unbind
    unbind-IsBalanced e h b = unbind_from-IsBalanced setting accepts e.bound_address e refl h b

    disconnect-IsBalanced :
        (e : Endpoint)
        → (disconnect setting accepts e).1 ≡ none
        → IsBalanced e
        → IsBalanced (disconnect setting accepts e).0
    unfolding disconnect
    disconnect-IsBalanced e h b =
        disconnect_from-IsBalanced setting accepts e.host_address e refl h b

    initialize_as-IsBalanced :
        (r : Role) (e : Endpoint) → IsBalanced e → IsBalanced (initialize_as setting accepts r e).0
    unfolding initialize_as
    initialize_as-IsBalanced undefined e b = b
    initialize_as-IsBalanced host e b = bind-IsBalanced setting accepts refuses none e b
    initialize_as-IsBalanced satellite e b = connect-IsBalanced setting accepts refuses none e b

    deinitialize_as-IsBalanced :
        (r : Role) (e : Endpoint)
        → (deinitialize_as setting accepts r e).1 ≡ none
        → IsBalanced e
        → IsBalanced (deinitialize_as setting accepts r e).0
    unfolding deinitialize_as
    deinitialize_as-IsBalanced undefined e h b = b
    deinitialize_as-IsBalanced host e h b = unbind-IsBalanced e h b
    deinitialize_as-IsBalanced satellite e h b = disconnect-IsBalanced e h b

    Step-IsBalanced : {e t : Endpoint} → Step e t → IsBalanced e → IsBalanced t
    unfolding initialize deinitialize open_responder stop_responder
    Step-IsBalanced {e} (connected a) b = connect-IsBalanced setting accepts refuses a e b
    Step-IsBalanced {e} (disconnected h) b = disconnect-IsBalanced e h b
    Step-IsBalanced {e} (bound a) b = bind-IsBalanced setting accepts refuses a e b
    Step-IsBalanced {e} (unbound h) b = unbind-IsBalanced e h b
    Step-IsBalanced {e} initialized b = initialize_as-IsBalanced e.role e b
    Step-IsBalanced {e} (deinitialized h) b = deinitialize_as-IsBalanced e.role e h b
    Step-IsBalanced {e} opened b =
        and_then-IsBalanced (initialize setting accepts e) (bind setting accepts none)
          (initialize_as-IsBalanced e.role e b)
          (λ t k. bind-IsBalanced setting accepts refuses none t k)
    Step-IsBalanced {e} (stopped h) b =
        both-IsBalanced (unbind setting accepts e) (deinitialize setting accepts) h
          (λ k. unbind-IsBalanced e k b) (λ t k c. deinitialize_as-IsBalanced t.role t k c)

    endpoint-IsBalanced :
        (role : Role) (address : Option Text) {e : Endpoint}
        → Steps (new_endpoint role address) e
        → IsBalanced e
    unfolding new_endpoint
    endpoint-IsBalanced role address none_yet = record {
      bound = refl;
      connected = refl;
      bound_to = λ p. cc;
      connected_to = λ p. cc;
    }
    endpoint-IsBalanced role address (then_one steps step) =
        Step-IsBalanced step (endpoint-IsBalanced role address steps)

    -- Whatever is done with a new endpoint, in any order and also where connecting, binding,
    -- initializing and starting raise exceptions, as long as no disconnecting, unbinding, deinitializing
    -- and stopping has raised one: its socket is bound to exactly its bound address and connected to
    -- exactly its host address, so to one of each at most, if the socket refuses the empty address.
    -- Unbinding or disconnecting then keeps that and leaves no such address, or the socket refuses, stays
    -- bound or connected to the address, and the endpoint has forgotten it.
    pub Steps-IsBalanced :
        (role : Role) (address : Option Text) {e : Endpoint}
        → Steps (new_endpoint role address) e
        → IsBalanced e
          × Unbinds (unbind setting accepts e)
          × Disconnects (disconnect setting accepts e)
    unfolding unbind disconnect
    Steps-IsBalanced role address {e} steps =
        let b = endpoint-IsBalanced role address steps in
        (
          b,
          unbind_from-Unbinds setting accepts e.bound_address e refl b,
          disconnect_from-Disconnects setting accepts e.host_address e refl b,
        )
