-- ===== src/Zmq/Rpc/Call.antt =====
-- What the client of a remote call gets, against a direct call of the method.
use common_core.Base.{
  inl, inr, ◌≡◌, refl, ap, ◌∙◌, ◌+◌, String, Option, none, some, [], ◌∷◌, eq_string,
}
use common_core.Base.Dict.{Dict, get}
use common_core.Base.Result.{Result, ok, raised, Result-cases}
use common_core.Values.{end, field, tuple, Ranges, encode_key_value_map}
use common_core.Zmq.Rpc.{
  status_ok, status_failed, Request, Reply, Codec, Outcome, returned, returned_none, returned_other,
  excepted, Argument, no_argument, unannotated, annotated_other, annotated, Method, method, Handler,
  Failure, add_to_reply,
}
use common_core.Zmq.Rpc.Server.{
  add_error, take_outcome, invoke_handler, process_handler_invocation, call_handler,
  process_protobuf_request, process_request, run, serialize_result, new_reply,
}
use common_core.Zmq.Rpc.Client.{
  Client, Answer, failed, decoded, send_invocation, result_of, receive_result, received, or_empty,
  call,
}

-- Requests and replies are read as they were written.
pub record CarriesEnvelopes {B M : Type 0} (c : Codec B M) : Type 0 where
  pub requests : (q : Request B) → c.parse_request (c.serialize_request q) ≡ ok q
  pub replies : (p : Reply B) → c.parse_reply (c.serialize_reply p) ≡ ok p

module _ {B M : Type 0} (c : Codec B M) where
  -- What a method is called with for the message of a request.
  abbrev pub Takes : Argument → M → Option M → Type 0
  Takes no_argument m none = Unit
  Takes (annotated type) m (some arg) = c.parse type (c.serialize m) ≡ ok arg
  Takes _ m arg = ⊥

  receive_result-serialized :
      (type : String) (reply : Reply B)
      → CarriesEnvelopes c
      → receive_result c type (c.serialize_reply reply) ≡ result_of c type reply reply.code
  unfolding receive_result
  receive_result-serialized type reply carries = rw (receive_result, carries.replies reply) refl

module _ {B M S : Type 0} (c : Codec B M) (r : Ranges) where
  -- What the outcome of a method is for a client that expects a type: a message of that type, an
  -- error for an exception whose arguments can be encoded, or no reply.
  abbrev pub told : String → Outcome M × S → Option (Answer M) × S
  told type (returned m, t) = (some (decoded (c.parse type (c.serialize m))), t)
  told type (returned_none, t) = (some (decoded (c.parse type (c.serialize c.empty))), t)
  told type (returned_other, t) = (none, t)
  told type (excepted e, t) = (
    elim (encode_key_value_map r (field "exception_args" (tuple e.args) end)) [
      | raised f ↦ none
      | ok attributes ↦ some (
          failed (record {
            code = status_failed;
            details = record { text = e.text; symbol = e.name; attributes = attributes };
          }))
    ],
    t,
  )

  -- What the client finds in the reply that the server makes.
  abbrev heard : String → Result Failure (Reply B) × S → Option (Answer M) × S
  heard type (ok reply, t) = (some (receive_result c type (c.serialize_reply reply)), t)
  heard type (raised e, t) = (none, t)

  heard-take_outcome :
      (type : String) (o : Outcome M) (reply : Reply B) (t : S)
      → CarriesEnvelopes c
      → reply.code ≡ status_ok
      → heard type (take_outcome c r o reply, t) ≡ told type (o, t)
  unfolding take_outcome add_error add_to_reply
  heard-take_outcome type (returned m) reply t carries e =
      ap (λ a. (some a, t))
        (receive_result-serialized c type (record reply { param = c.serialize m }) carries
          ∙ rw e refl)
  heard-take_outcome type returned_none reply t carries e =
      ap (λ a. (some a, t))
        (receive_result-serialized c type (record reply { param = c.serialize c.empty }) carries
          ∙ rw e refl)
  heard-take_outcome type returned_other reply t carries e = refl
  heard-take_outcome type (excepted x) reply t carries e =
      elim (Result-cases (encode_key_value_map r (field "exception_args" (tuple x.args) end))) [
        | inl (attributes, p) ↦
            rw (take_outcome, add_error, p)
              (ap (λ a. (some a, t)) (receive_result-serialized c type _ carries))
        | inr (f, p) ↦ rw (take_outcome, add_error, p) refl
      ]

  module _ (type : String) (handlers : Dict String (Handler M S)) where
    heard-run :
        (bytes : B) (s : S) (x : Result Failure (Reply B) × S)
        → process_request c r handlers bytes s ≡ serialize_result c r handlers x
        → (let (replies, e, t) = run c r handlers (bytes ∷ []) s in (received c type replies, t))
          ≡ heard type x
    unfolding run
    heard-run bytes s (ok reply, t) h = rw (run, received, ap (λ x. x.0) h, ap (λ x. x.1) h) refl
    heard-run bytes s (raised e, t) h = rw (run, received, ap (λ x. x.0) h, ap (λ x. x.1) h) refl

    invoke-Takes :
        (i : String) (m : Method M S) (a : Argument) (q : Request B) (v : M) (arg : Option M)
        (reply : Reply B) (s : S)
        → m.argument ≡ a
        → q.param ≡ c.serialize v
        → Takes c a v arg
        → process_handler_invocation c r i m q reply s ≡ invoke_handler c r m arg reply s
    unfolding process_handler_invocation
    invoke-Takes i m no_argument q v none reply s e p h = rw (process_handler_invocation, e) refl
    invoke-Takes i m no_argument q v (some arg) reply s e p h = elim h [ ]
    invoke-Takes i m unannotated q v arg reply s e p h = elim h [ ]
    invoke-Takes i m annotated_other q v arg reply s e p h = elim h [ ]
    invoke-Takes i m (annotated t) q v none reply s e p h = elim h [ ]
    invoke-Takes i m (annotated t) q v (some arg) reply s e p h =
        rw (process_handler_invocation, e, p, h) refl

    abbrev marked : Request B → Reply B
    marked q = record (new_reply c) { client_id = q.client_id; request_id = q.request_id }

    process_request-Takes :
        (q : Request B) (h : Handler M S) (m : Method M S) (v : M) (arg : Option M) (s : S)
        → CarriesEnvelopes c
        → get q.interface_name handlers ≡ some h
        → h.attribute q.method_name ≡ some (method m)
        → q.param ≡ c.serialize v
        → Takes c m.argument v arg
        → process_request c r handlers (c.serialize_request q) s
          ≡ serialize_result c r handlers (invoke_handler c r m arg (marked q) s)
    unfolding process_request invoke_handler
    process_request-Takes q h m v arg s carries registered found p takes =
        rw
          (
            process_request,
            carries.requests q,
            process_protobuf_request,
            registered,
            call_handler,
            found,
            invoke-Takes h.interface_name m m.argument q v arg (marked q) s refl p takes,
          )
          refl

    -- Whatever a handler's method does with the message of a call, the client of the call gets what
    -- a direct call with that message tells it, and goes on waiting where that is no reply; the
    -- handler's state is that of the direct call, and the client has counted its request. Hypotheses:
    -- requests and replies are read as they were written, a handler is registered for the client's
    -- interface and has the method, and the message is read as one of the type that the method takes,
    -- or the method takes none.
    pub call-refines :
        (name : String) (request arg : Option M) (client : Client) (s : S) (h : Handler M S)
        (m : Method M S)
        → CarriesEnvelopes c
        → get client.interface_name handlers ≡ some h
        → h.attribute name ≡ some (method m)
        → Takes c m.argument (or_empty c request) arg
        → call c r handlers name request type client s ≡ (
          record client { request_id = client.request_id + 1 },
          (told type (m.invoke arg s)).0,
          (told type (m.invoke arg s)).1,
        )
    unfolding call send_invocation invoke_handler
    call-refines name request arg client s h m carries registered found takes =
        let q : Request B = record {
          request_id = client.request_id + 1;
          client_id = client.client_id;
          interface_name = client.interface_name;
          method_name = name;
          param = c.serialize (or_empty c request);
        } in
        ap (λ x. (record client { request_id = client.request_id + 1 }, x.0, x.1))
          (heard-run (c.serialize_request q) s (invoke_handler c r m arg (marked q) s) (
              process_request-Takes q h m (or_empty c request) arg s carries registered found refl
                takes)
            ∙ heard-take_outcome type (m.invoke arg s).0 (marked q) (m.invoke arg s).1 carries refl)
