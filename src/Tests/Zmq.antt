-- ===== src/Tests/Zmq.antt =====
-- A server with one handler, over packets that hold messages whole.
use common_core.Base.{
  ℕ, ◌+◌, ◌≡◌, refl, ap, ◌≢◌, inl, String, Option, none, some, List, [], ◌∷◌, ◌++◌, str_eq,
  if◌then◌else◌, eq_string,
}
use common_core.Base.Dict.{Dict, get, put}
use common_core.Base.Result.{Result, ok, raised}
use common_core.Values.{nil, keyed, value_string, no_keys, encode_key_value_map}
use common_core.Tests.Values.{ranges}
use common_core.Zmq.Rpc.{
  StatusCode, status_invalid, Event, Request, Reply, PyException, Codec, Outcome, returned,
  annotated, Method, method, Handler,
}
use common_core.Zmq.Rpc.Server.{handlers_by_name, process_request, run}
use common_core.Zmq.Rpc.Client.{Client, answered, call}
use common_core.Zmq.Rpc.Call.{CarriesEnvelopes, call-refines}
use common_core.Zmq.Rpc.Replies.{process_request-ids, run_stops}

data Packet : Type 0 where
  nothing : Packet
  number : ℕ → Packet
  asks : ℕ → ℕ → String → String → Packet → Packet
  replies : ℕ → ℕ → StatusCode → Event → Packet → Packet

abbrev garbled : PyException
garbled = record { name = "DecodeError"; text = "Error parsing message"; args = nil }

abbrev parse_number : String → Packet → Result PyException ℕ
parse_number type (number n) = ok n
parse_number type p = raised garbled

abbrev parse_asks : Packet → Result PyException (Request Packet)
parse_asks (asks i k f m p) =
    ok (record { request_id = i; client_id = k; interface_name = f; method_name = m; param = p })
parse_asks p = raised garbled

abbrev parse_replies : Packet → Result PyException (Reply Packet)
parse_replies (replies i k c e p) =
    ok (record { request_id = i; client_id = k; code = c; details = e; param = p })
parse_replies p = raised garbled

abbrev packets : Codec Packet ℕ
packets = record {
  no_bytes = nothing;
  serialize = number;
  parse = parse_number;
  empty = 0;
  serialize_request = λ q. asks q.request_id q.client_id q.interface_name q.method_name q.param;
  parse_request = parse_asks;
  serialize_reply = λ p. replies p.request_id p.client_id p.code p.details p.param;
  parse_reply = parse_replies;
}

packets-CarriesEnvelopes : CarriesEnvelopes packets
packets-CarriesEnvelopes = record { requests = λ q. refl; replies = λ p. refl }

-- Adds the argument to the state and returns the sum.
abbrev add_to : Option ℕ → ℕ → Outcome ℕ × ℕ
add_to none s = (returned s, s)
add_to (some n) s = (returned (s + n), s + n)

abbrev adding : Method ℕ ℕ
adding = record { name = "add"; argument = annotated "Number"; invoke = add_to }

abbrev counter : Handler ℕ ℕ
counter = record {
  interface_name = "Counter";
  attribute = λ name. if str_eq name "add" then some (method adding) else none;
}

abbrev handlers : Dict String (Handler ℕ ℕ)
handlers = ("Counter", counter) ∷ []

handlers_run : handlers_by_name (counter ∷ []) ≡ handlers
unfolding handlers_by_name put
handlers_run = refl

abbrev client : Client
client = record { request_id = 4; client_id = 1; interface_name = "Counter" }

call-refines_example :
    call packets ranges handlers "add" (some 3) "Number" client 10
    ≡ (record client { request_id = 5 }, some (answered 13), 13)
unfolding get
call-refines_example =
    call-refines packets ranges "Number" handlers "add" (some 3) (some 3) client 10 counter adding
      packets-CarriesEnvelopes refl refl refl

abbrev request : Packet
request = asks 7 2 "Counter" "subtract" (number 1)

abbrev sent_reply : Packet
sent_reply =
    replies 7 2 status_invalid
      (record {
        text = "Requested method not found";
        symbol = "NotFound";
        attributes =
            keyed "interface_name" (value_string "Counter")
              (keyed "method_name" (value_string "subtract") no_keys);
      })
      nothing

sent_run : process_request packets ranges handlers request 0 ≡ (ok sent_reply, 0)
unfolding process_request encode_key_value_map get
sent_run = refl

process_request-ids_example :
    (reply : Reply Packet) × (sent_reply ≡ packets.serialize_reply reply)
    × (reply.request_id ≡ 7)
    × (reply.client_id ≡ 2)
process_request-ids_example =
    process_request-ids packets ranges handlers request sent_reply
      (record {
        request_id = 7;
        client_id = 2;
        interface_name = "Counter";
        method_name = "subtract";
        param = number 1;
      })
      0 refl (ap (λ x. x.0) sent_run)

abbrev before : List Packet
before = request ∷ []

abbrev after : List Packet
after = request ∷ request ∷ []

run_stops_example :
    let (sent, e, t) = run packets ranges handlers (before ++ nothing ∷ after) 0 in
    (sent ≡ (run packets ranges handlers before 0).0) × (e ≢ none)
run_stops_example = run_stops packets ranges handlers before after nothing 0 (inl (garbled, refl))
