-- ===== src/Zmq/Rpc/Replies.antt =====
-- What the server replies, to each request and to a sequence of them.
use common_core.Base.{
  ◌≡◌, refl, ap, ◌≢◌, ◌⊎◌, inl, inr, String, Option, none, some, List, [], ◌∷◌, ◌++◌, eq_string,
}
use common_core.Base.Dict.{Dict, get}
use common_core.Base.Result.{Result, ok, raised, Result-cases}
use common_core.Values.{PyFields, Ranges, encode_key_value_map}
use common_core.Zmq.Rpc.{
  StatusCode, Request, Reply, PyException, Codec, Outcome, returned, returned_none, returned_other,
  excepted, Argument, no_argument, unannotated, annotated_other, annotated, Method, method,
  not_callable, Attribute, Handler, Failure, name_error, add_to_reply,
}
use common_core.Zmq.Rpc.Server.{
  add_error, take_outcome, invoke_handler, process_handler_invocation, call_handler,
  process_protobuf_request, process_request, run, serialize_result, new_reply,
}

module _ {B M : Type 0} (c : Codec B M) (r : Ranges) where
  -- A reply to the request, with its identifiers
  abbrev Answers : Request B → Result Failure (Reply B) → Type 0
  Answers q (ok reply) = (reply.request_id ≡ q.request_id) × (reply.client_id ≡ q.client_id)
  Answers q (raised e) = Unit

  add_error-Answers :
      (code : StatusCode) (text symbol : String) (a : PyFields) (q : Request B) (reply : Reply B)
      → Answers q (ok reply)
      → Answers q (add_error c r code text symbol a reply)
  unfolding add_error add_to_reply
  add_error-Answers code text symbol a q reply h = elim (Result-cases (encode_key_value_map r a)) [
    | inl (m, p) ↦ rw (add_error, p) h
    | inr (e, p) ↦ rw (add_error, p) tt
  ]

  take_outcome-Answers :
      (o : Outcome M) (q : Request B) (reply : Reply B)
      → Answers q (ok reply)
      → Answers q (take_outcome c r o reply)
  unfolding take_outcome
  take_outcome-Answers (returned m) q reply h = h
  take_outcome-Answers returned_none q reply h = h
  take_outcome-Answers returned_other q reply h = tt
  take_outcome-Answers (excepted e) q reply h = add_error-Answers _ _ _ _ q reply h

module _ {B M S : Type 0} (c : Codec B M) (r : Ranges) where
  invocation-Answers :
      (a : Argument) (i : String) (m : Method M S) (q : Request B) (reply : Reply B) (s : S)
      → m.argument ≡ a
      → Answers c r q (ok reply)
      → Answers c r q (process_handler_invocation c r i m q reply s).0
  unfolding process_handler_invocation invoke_handler
  invocation-Answers no_argument i m q reply s e h =
      rw (process_handler_invocation, e) (take_outcome-Answers c r (m.invoke none s).0 q reply h)
  invocation-Answers unannotated i m q reply s e h =
      rw (process_handler_invocation, e) (add_error-Answers c r _ _ _ _ q reply h)
  invocation-Answers annotated_other i m q reply s e h =
      rw (process_handler_invocation, e) (add_error-Answers c r _ _ _ _ q reply h)
  invocation-Answers (annotated t) i m q reply s e h = elim (Result-cases (c.parse t q.param)) [
    | inl (v, p) ↦
        rw (process_handler_invocation, e, p)
          (take_outcome-Answers c r (m.invoke (some v) s).0 q reply h)
    | inr (x, p) ↦ rw (process_handler_invocation, e, p) tt
  ]

  found-Answers :
      (o : Option (Attribute M S)) (handler : Handler M S) (q : Request B) (reply : Reply B) (s : S)
      → handler.attribute q.method_name ≡ o
      → Answers c r q (ok reply)
      → Answers c r q (call_handler c r handler q reply s).0
  unfolding call_handler
  found-Answers none handler q reply s e h =
      rw (call_handler, e) (add_error-Answers c r _ _ _ _ q reply h)
  found-Answers (some not_callable) handler q reply s e h = rw (call_handler, e) tt
  found-Answers (some (method m)) handler q reply s e h =
      rw (call_handler, e) (invocation-Answers m.argument handler.interface_name m q reply s refl h)

  module _ (handlers : Dict String (Handler M S)) where
    request-Answers :
        (o : Option (Handler M S)) (q : Request B) (reply : Reply B) (s : S)
        → get q.interface_name handlers ≡ o
        → Answers c r q (process_protobuf_request c r handlers q reply s).0
    unfolding process_protobuf_request
    request-Answers none q reply s e = rw (process_protobuf_request, e) tt
    request-Answers (some handler) q reply s e =
        rw (process_protobuf_request, e)
          (found-Answers (handler.attribute q.method_name) handler q _ s refl (refl, refl))

    serialized :
        (x : Result Failure (Reply B) × S) (q : Request B) (out : B)
        → Answers c r q x.0
        → (serialize_result c r handlers x).0 ≡ ok out
        → (reply : Reply B) × (out ≡ c.serialize_reply reply)
          × (reply.request_id ≡ q.request_id)
          × (reply.client_id ≡ q.client_id)
    serialized (ok reply, t) q out a h = (reply, cc, a.0, a.1)
    serialized (raised e, t) q out a h = cc

    -- Whatever the server sends in reply to a request that it can read is a reply with the request's
    -- own identifiers, errors included.
    pub process_request-ids :
        (bytes out : B) (q : Request B) (s : S)
        → c.parse_request bytes ≡ ok q
        → (process_request c r handlers bytes s).0 ≡ ok out
        → (reply : Reply B) × (out ≡ c.serialize_reply reply)
          × (reply.request_id ≡ q.request_id)
          × (reply.client_id ≡ q.client_id)
    unfolding process_request
    process_request-ids bytes out q s read sent =
        serialized (process_protobuf_request c r handlers q (new_reply c) s) q out
          (request-Answers (get q.interface_name handlers) q (new_reply c) s refl)
          (rw (process_request, read) at sent)

    -- A request for which no handler is registered, or that cannot be read.
    abbrev pub IsRejected : B → Type 0
    IsRejected bytes =
        ((e : PyException) × (c.parse_request bytes ≡ raised e))
        ⊎ ((q : Request B) × (c.parse_request bytes ≡ ok q)
            × (get q.interface_name handlers ≡ none))

    rejected-raises :
        (bytes : B) (s : S)
        → IsRejected bytes
        → process_request c r handlers bytes s ≡ (raised name_error, s)
    unfolding process_request process_protobuf_request
    rejected-raises bytes s (inl (e, p)) = rw (process_request, p) refl
    rejected-raises bytes s (inr (q, p, n)) =
        rw (process_request, p, process_protobuf_request, n) refl

    -- The first request for which no handler is registered, or that cannot be read, ends the server:
    -- however many requests follow, it sends the replies to those before it and no other, and its
    -- loop is left by an exception.
    pub run_stops :
        (before after : List B) (bytes : B) (s : S)
        → IsRejected bytes
        → let (replies, e, t) = run c r handlers (before ++ bytes ∷ after) s in
          (replies ≡ (run c r handlers before s).0) × (e ≢ none)
    unfolding run
    run_stops [] after bytes s h =
        let first = ap (λ x. x.0) (rejected-raises bytes s h) in
        (rw (run, first) refl, rw (run, first) (λ e. cc))
    run_stops (b ∷ before) after bytes s h =
        let (result, t) = process_request c r handlers b s in
        let rest = run_stops before after bytes t h in
        elim (Result-cases result) [
          | inl (reply, p) ↦ (rw (run, p) (ap (λ l. reply ∷ l) rest.0), rw (run, p) rest.1)
          | inr (e, p) ↦ (rw (run, p) refl, rw (run, p) (λ n. cc))
        ]
