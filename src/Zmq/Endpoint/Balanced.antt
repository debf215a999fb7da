-- ===== src/Zmq/Endpoint/Balanced.antt =====
-- What the socket of an endpoint is bound and connected to.
use common_core.Base.Text.{Text}
use common_core.Base.{
  ◌≡◌, refl, ap, ◌∙◌, ◌≢◌, inl, inr, Bool, true, false, Option, none, some, List, [], ◌∷◌, ◌++◌,
  list_beq, list_beq_reflects, eq_ℕ, Bool-cases, arith, if◌then◌else◌,
}
use common_core.Base.Result.{Result, ok, raised}
use common_core.Zmq.Address.{Component, Key, sanitized_host_address, sanitized_bind_address}
use common_core.Zmq.Address
use common_core.Zmq.Endpoint.{
  SocketCall, connects, disconnects, binds, unbinds, Endpoint, Failure, refused, is_set, connect_to,
  connect, disconnect_from, bind_to, bind, unbind_from,
}

abbrev drop_text : Text → List Text → List Text
drop_text a [] = []
drop_text a (b ∷ bs) = let rest = drop_text a bs in if list_beq b a then bs else b ∷ rest

-- The addresses that a socket is bound to, and connected to, after the calls that it accepted
abbrev pub bound_after : List Text → List SocketCall → List Text
bound_after bs [] = bs
bound_after bs (binds a ∷ calls) = bound_after (bs ++ a ∷ []) calls
bound_after bs (unbinds a ∷ calls) = bound_after (drop_text a bs) calls
bound_after bs (call ∷ calls) = bound_after bs calls

abbrev pub connected_after : List Text → List SocketCall → List Text
connected_after bs [] = bs
connected_after bs (connects a ∷ calls) = connected_after (bs ++ a ∷ []) calls
connected_after bs (disconnects a ∷ calls) = connected_after (drop_text a bs) calls
connected_after bs (call ∷ calls) = connected_after bs calls

abbrev pub listed : Option Text → List Text
listed none = []
listed (some a) = a ∷ []

-- The socket is bound to the endpoint's bound address and no other, and connected to its host address
-- and no other.
pub record IsBalanced (e : Endpoint) : Type 0 where
  pub bound : bound_after [] e.calls ≡ listed e.bound_address
  pub connected : connected_after [] e.calls ≡ listed e.host_address
  pub bound_to : e.bound_address ≢ some []
  pub connected_to : e.host_address ≢ some []

-- The socket refuses the empty address.
pub record RefusesEmpty (accepts : List SocketCall → SocketCall → Bool) : Type 0 where
  pub no_binds : (calls : List SocketCall) → accepts calls (binds []) ≡ false
  pub no_connects : (calls : List SocketCall) → accepts calls (connects []) ≡ false

bound_after-append :
    (bs : List Text) (calls : List SocketCall) (call : SocketCall)
    → bound_after bs (calls ++ call ∷ []) ≡ bound_after (bound_after bs calls) (call ∷ [])
bound_after-append bs [] call = refl
bound_after-append bs (binds a ∷ calls) call = bound_after-append (bs ++ a ∷ []) calls call
bound_after-append bs (unbinds a ∷ calls) call = bound_after-append (drop_text a bs) calls call
bound_after-append bs (connects a ∷ calls) call = bound_after-append bs calls call
bound_after-append bs (disconnects a ∷ calls) call = bound_after-append bs calls call

connected_after-append :
    (bs : List Text) (calls : List SocketCall) (call : SocketCall)
    → connected_after bs (calls ++ call ∷ [])
      ≡ connected_after (connected_after bs calls) (call ∷ [])
connected_after-append bs [] call = refl
connected_after-append bs (binds a ∷ calls) call = connected_after-append bs calls call
connected_after-append bs (unbinds a ∷ calls) call = connected_after-append bs calls call
connected_after-append bs (connects a ∷ calls) call =
    connected_after-append (bs ++ a ∷ []) calls call
connected_after-append bs (disconnects a ∷ calls) call =
    connected_after-append (drop_text a bs) calls call

drop_text_self : (a : Text) → drop_text a (a ∷ []) ≡ []
drop_text_self a = rw ((list_beq_reflects a a).1 refl) refl

unset-none : (o : Option Text) → is_set o ≡ false → o ≢ some [] → o ≡ none
unset-none none f n = refl
unset-none (some []) f n = absurd (n refl)
unset-none (some (c ∷ cs)) f n = cc

module _ (setting : Key → Component → Component) (accepts : List SocketCall → SocketCall → Bool)
    (refuses : RefusesEmpty accepts) where
  connect_to-IsBalanced :
      (r : Result Address.Failure Text) (e : Endpoint)
      → is_set e.host_address ≡ false
      → IsBalanced e
      → IsBalanced (connect_to setting accepts r e).0
  unfolding connect_to
  connect_to-IsBalanced (raised x) e f b = b
  connect_to-IsBalanced (ok a) e f b = elim (Bool-cases (accepts e.calls (connects a))) [
    | inl t ↦
        let free = unset-none e.host_address f b.connected_to in
        let now : IsBalanced
            (record e { host_address = some a; calls = e.calls ++ connects a ∷ [] }) =
          record {
            bound = bound_after-append [] e.calls (connects a) ∙ b.bound;
            connected =
                connected_after-append [] e.calls (connects a) ∙ rw (b.connected, free) refl;
            bound_to = b.bound_to;
            connected_to = λ p. ground (arith, refuses.no_connects e.calls, t);
          } in
        rw (connect_to, t) now
    | inr n ↦ rw (connect_to, n) b
  ]

  bind_to-IsBalanced :
      (r : Result Address.Failure Text) (e : Endpoint)
      → is_set e.bound_address ≡ false
      → IsBalanced e
      → IsBalanced (bind_to setting accepts r e).0
  unfolding bind_to
  bind_to-IsBalanced (raised x) e f b = b
  bind_to-IsBalanced (ok a) e f b = elim (Bool-cases (accepts e.calls (binds a))) [
    | inl t ↦
        let free = unset-none e.bound_address f b.bound_to in
        let now : IsBalanced
            (record e { bound_address = some a; calls = e.calls ++ binds a ∷ [] }) =
          record {
            bound = bound_after-append [] e.calls (binds a) ∙ rw (b.bound, free) refl;
            connected = connected_after-append [] e.calls (binds a) ∙ b.connected;
            bound_to = λ p. ground (arith, refuses.no_binds e.calls, t);
            connected_to = b.connected_to;
          } in
        rw (bind_to, t) now
    | inr n ↦ rw (bind_to, n) b
  ]

  pub connect-IsBalanced :
      (address : Option Text) (e : Endpoint)
      → IsBalanced e
      → IsBalanced (connect setting accepts address e).0
  unfolding connect
  connect-IsBalanced address e b = elim (Bool-cases (is_set e.host_address)) [
    | inl t ↦ rw (connect, t) b
    | inr f ↦
        rw (connect, f)
          (connect_to-IsBalanced (sanitized_host_address setting address e.provided_address) e f b)
  ]

  pub bind-IsBalanced :
      (address : Option Text) (e : Endpoint)
      → IsBalanced e
      → IsBalanced (bind setting accepts address e).0
  unfolding bind
  bind-IsBalanced address e b = elim (Bool-cases (is_set e.bound_address)) [
    | inl t ↦ rw (bind, t) b
    | inr f ↦
        rw (bind, f)
          (bind_to-IsBalanced (sanitized_bind_address setting address e.provided_address) e f b)
  ]

-- A release that is not refused
module _ (setting : Key → Component → Component)
    (accepts : List SocketCall → SocketCall → Bool) where
  pub disconnect_from-IsBalanced :
      (o : Option Text) (e : Endpoint)
      → e.host_address ≡ o
      → (disconnect_from setting accepts o e).1 ≡ none
      → IsBalanced e
      → IsBalanced (disconnect_from setting accepts o e).0
  unfolding disconnect_from
  disconnect_from-IsBalanced none e p h b = b
  disconnect_from-IsBalanced (some []) e p h b = b
  disconnect_from-IsBalanced (some (c ∷ cs)) e p h b =
      let a = c ∷ cs in
      let now : IsBalanced
          (record e { host_address = none; calls = e.calls ++ disconnects a ∷ [] }) =
        record {
          bound = bound_after-append [] e.calls (disconnects a) ∙ b.bound;
          connected =
              connected_after-append [] e.calls (disconnects a)
              ∙ ap (drop_text a) (b.connected ∙ ap listed p)
              ∙ drop_text_self a;
          bound_to = b.bound_to;
          connected_to = λ q. cc;
        } in
      elim (Bool-cases (accepts e.calls (disconnects a))) [
        | inl t ↦ rw (disconnect_from, t) now
        | inr f ↦
            let bad : some (refused (disconnects a)) ≡ none = rw (disconnect_from, f) at h in cc bad
      ]

  pub unbind_from-IsBalanced :
      (o : Option Text) (e : Endpoint)
      → e.bound_address ≡ o
      → (unbind_from setting accepts o e).1 ≡ none
      → IsBalanced e
      → IsBalanced (unbind_from setting accepts o e).0
  unfolding unbind_from
  unbind_from-IsBalanced none e p h b = b
  unbind_from-IsBalanced (some []) e p h b = b
  unbind_from-IsBalanced (some (c ∷ cs)) e p h b =
      let a = c ∷ cs in
      let now : IsBalanced (record e { bound_address = none; calls = e.calls ++ unbinds a ∷ [] }) =
        record {
          bound =
              bound_after-append [] e.calls (unbinds a)
              ∙ ap (drop_text a) (b.bound ∙ ap listed p)
              ∙ drop_text_self a;
          connected = connected_after-append [] e.calls (unbinds a) ∙ b.connected;
          bound_to = λ q. cc;
          connected_to = b.connected_to;
        } in
      elim (Bool-cases (accepts e.calls (unbinds a))) [
        | inl t ↦ rw (unbind_from, t) now
        | inr f ↦ let bad : some (refused (unbinds a)) ≡ none = rw (unbind_from, f) at h in cc bad
      ]

-- How unbinding may end: it lets go of the address and leaves all else as it was, or the socket refuses
-- and stays bound to an address, which the endpoint has forgotten.
abbrev pub Unbinds : Endpoint × Option Failure → Type 0
Unbinds (e, none) = IsBalanced e × (e.bound_address ≡ none)
Unbinds (e, some (refused (unbinds a))) =
    (a ≢ []) × (e.bound_address ≡ none) × (bound_after [] e.calls ≡ a ∷ [])
Unbinds (e, some x) = false ≡ true

-- How disconnecting may end
abbrev pub Disconnects : Endpoint × Option Failure → Type 0
Disconnects (e, none) = IsBalanced e × (e.host_address ≡ none)
Disconnects (e, some (refused (disconnects a))) =
    (a ≢ []) × (e.host_address ≡ none) × (connected_after [] e.calls ≡ a ∷ [])
Disconnects (e, some x) = false ≡ true

module _ (setting : Key → Component → Component)
    (accepts : List SocketCall → SocketCall → Bool) where
  pub unbind_from-Unbinds :
      (o : Option Text) (e : Endpoint)
      → e.bound_address ≡ o
      → IsBalanced e
      → Unbinds (unbind_from setting accepts o e)
  unfolding unbind_from
  unbind_from-Unbinds none e p b = (b, p)
  unbind_from-Unbinds (some []) e p b = absurd (b.bound_to p)
  unbind_from-Unbinds (some (c ∷ cs)) e p b =
      let a = c ∷ cs in
      let keeps = unbind_from-IsBalanced setting accepts (some a) e p in
      elim (Bool-cases (accepts e.calls (unbinds a))) [
        | inl t ↦
            let now : IsBalanced
                (record e { bound_address = none; calls = e.calls ++ unbinds a ∷ [] }) =
              rw (unbind_from, t) at (keeps (rw (unbind_from, t) refl) b) in
            rw (unbind_from, t) (now, refl)
        | inr f ↦ rw (unbind_from, f) ((λ q. cc), refl, b.bound ∙ ap listed p)
      ]

  pub disconnect_from-Disconnects :
      (o : Option Text) (e : Endpoint)
      → e.host_address ≡ o
      → IsBalanced e
      → Disconnects (disconnect_from setting accepts o e)
  unfolding disconnect_from
  disconnect_from-Disconnects none e p b = (b, p)
  disconnect_from-Disconnects (some []) e p b = absurd (b.connected_to p)
  disconnect_from-Disconnects (some (c ∷ cs)) e p b =
      let a = c ∷ cs in
      let keeps = disconnect_from-IsBalanced setting accepts (some a) e p in
      elim (Bool-cases (accepts e.calls (disconnects a))) [
        | inl t ↦
            let now : IsBalanced
                (record e { host_address = none; calls = e.calls ++ disconnects a ∷ [] }) =
              rw (disconnect_from, t) at (keeps (rw (disconnect_from, t) refl) b) in
            rw (disconnect_from, t) (now, refl)
        | inr f ↦ rw (disconnect_from, f) ((λ q. cc), refl, b.connected ∙ ap listed p)
      ]
