-- ===== src/Zmq/Rpc/Server.antt =====
-- `RequestHandler` and `Server` of src/core/python/messaging/zmq/protobuf/requesthandler.py and
-- server.py, and the loop of `Responder` in src/core/python/messaging/zmq/basic/responder.py.
use common_core.Base.{String, Option, none, some, List, [], ◌∷◌, eq_string}
use common_core.Base.Dict.{Dict, get, put}
use common_core.Base.Result.{Result, ok, raised}
use common_core.Values.{PyFields, end, field, str, tuple, no_keys, Ranges, encode_key_value_map}
use common_core.Zmq.Rpc.{
  StatusCode, status_ok, status_invalid, status_failed, Request, Reply, Failure, name_error,
  type_error, attribute_error, not_decoded, not_encoded, Codec, add_to_reply, Outcome, returned,
  returned_none, returned_other, excepted, no_argument, unannotated, annotated_other, annotated,
  Method, not_callable, method, Handler,
}

module _ {M S : Type 0} where
  add_each : List (Handler M S) → Dict String (Handler M S) → Dict String (Handler M S)
  add_each [] d = d
  add_each (h ∷ hs) d = add_each hs (put h.interface_name h d)

  -- The `request_handlers` of `Server.__init__`
  unfoldable pub handlers_by_name : List (Handler M S) → Dict String (Handler M S)
  unfolding add_each
  handlers_by_name handlers = add_each handlers []

module _ {B M : Type 0} (c : Codec B M) where
  abbrev pub new_reply : Reply B
  new_reply = record {
    request_id = 0;
    client_id = 0;
    code = status_ok;
    details = record { text = ""; symbol = ""; attributes = no_keys };
    param = c.no_bytes;
  }

module _ {B M : Type 0} (c : Codec B M) (r : Ranges) where
  -- `Error(code, Event(text, symbol, attributes = keyValueMap(...))).add_to_reply(reply)`
  unfoldable pub add_error :
      StatusCode → String → String → PyFields → Reply B → Result Failure (Reply B)
  unfolding add_to_reply
  add_error code text symbol attributes reply = elim (encode_key_value_map r attributes) [
    | raised e ↦ raised (not_encoded e)
    | ok m ↦ ok (
        add_to_reply
          (record {
            code = code;
            details = record { text = text; symbol = symbol; attributes = m };
          })
          reply)
  ]

  -- What `_invoke_handler` does after the call
  unfoldable pub take_outcome : Outcome M → Reply B → Result Failure (Reply B)
  unfolding add_error
  take_outcome (returned m) reply = ok (record reply { param = c.serialize m })
  take_outcome returned_none reply = ok (record reply { param = c.serialize c.empty })
  take_outcome returned_other reply = raised attribute_error
  take_outcome (excepted e) reply =
      add_error status_failed e.text e.name (field "exception_args" (tuple e.args) end) reply

module _ {B M S : Type 0} (c : Codec B M) (r : Ranges) where
  -- `_invoke_handler(handler, args, reply)`
  unfoldable pub invoke_handler : Method M S → Option M → Reply B → S → Result Failure (Reply B) × S
  unfolding take_outcome
  invoke_handler m arg reply s =
      let (outcome, t) = m.invoke arg s in (take_outcome c r outcome reply, t)

  -- `_process_handler_invocation(handler, request, reply)` of a handler named `interface_name`
  unfoldable pub process_handler_invocation :
      String → Method M S → Request B → Reply B → S → Result Failure (Reply B) × S
  unfolding add_error invoke_handler
  process_handler_invocation interface_name m request reply s =
      let invalid =
        add_error c r status_failed
          "Handler method does not have an input argument with a ProtoBuf message annotation"
          "InvalidHandlerMethod"
          (field "interface_name" (str interface_name) (field "method_name" (str m.name) end))
          reply in
      elim m.argument [
        | no_argument ↦ invoke_handler m none reply s
        | unannotated ↦ (invalid, s)
        | annotated_other ↦ (invalid, s)
        | annotated type ↦ elim (c.parse type request.param) [
          | ok arg ↦ invoke_handler m (some arg) reply s
          | raised e ↦ (raised (not_decoded e), s)
        ]
      ]

  -- `RequestHandler.__call__(request, reply)`
  unfoldable pub call_handler : Handler M S → Request B → Reply B → S → Result Failure (Reply B) × S
  unfolding add_error process_handler_invocation
  call_handler handler request reply s = elim (handler.attribute request.method_name) [
    | none ↦ (
      add_error c r status_invalid "Requested method not found" "NotFound"
          (field "interface_name" (str request.interface_name)
            (field "method_name" (str request.method_name) end))
          reply,
      s,
    )
    | some not_callable ↦ (raised type_error, s)
    | some (method m) ↦ process_handler_invocation handler.interface_name m request reply s
  ]

  module _ (handlers : Dict String (Handler M S)) where
    -- `process_protobuf_request(request, reply)`: without a handler, the name `Event` is read, which
    -- the module does not define.
    unfoldable pub process_protobuf_request : Request B → Reply B → S → Result Failure (Reply B) × S
    unfolding call_handler
    process_protobuf_request request reply s =
        let marked = record reply {
          client_id = request.client_id;
          request_id = request.request_id;
        } in
        elim (get request.interface_name handlers) [
          | none ↦ (raised name_error, s)
          | some handler ↦ call_handler handler request marked s
        ]

    abbrev pub serialize_result : Result Failure (Reply B) × S → Result Failure B × S
    serialize_result (ok reply, s) = (ok (c.serialize_reply reply), s)
    serialize_result (raised e, s) = (raised e, s)

    -- `process_request(binary_request)`, which reads that name too where the request is not decoded
    unfoldable pub process_request : B → S → Result Failure B × S
    unfolding process_protobuf_request
    process_request bytes s = elim (c.parse_request bytes) [
      | raised e ↦ (raised name_error, s)
      | ok request ↦ serialize_result (process_protobuf_request request (new_reply c) s)
    ]

    -- The loop of `Responder.run` over the requests that arrive: the replies that it sends, and the
    -- exception that ends it, if one does.
    unfoldable pub run : List B → S → List B × Option Failure × S
    unfolding process_request
    run [] s = ([], none, s)
    run (bytes ∷ more) s =
        let (result, t) = process_request bytes s in
        let rest = run more t in
        elim result [ raised e ↦ ([], some e, t) | ok reply ↦ (reply ∷ rest.0, rest.1, rest.2) ]
