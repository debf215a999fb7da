-- ===== src/Zmq/Rpc/Client.antt =====
-- `Client` of src/core/python/messaging/zmq/protobuf/client.py.
use common_core.Base.{ℕ, ◌+◌, String, Option, none, some, List, [], ◌∷◌}
use common_core.Base.Dict.{Dict}
use common_core.Base.Result.{Result, ok, raised}
use common_core.Values.{Ranges}
use common_core.Zmq.Rpc.{StatusCode, status_ok, Reply, PyException, Codec, RpcError, Handler}
use common_core.Zmq.Rpc.Server.{run}

-- `Client`, by what identifies its requests
pub record Client : Type 0 where
  pub request_id : ℕ
  pub client_id : ℕ
  pub interface_name : String

-- `Client.__init__` with `Client.last_client_id`
unfoldable pub new_client : String → ℕ → Client × ℕ
new_client interface_name last_client_id = (
  record { request_id = 0; client_id = last_client_id + 1; interface_name = interface_name },
  last_client_id + 1,
)

-- What a call returns or raises
pub data Answer (M : Type 0) : Type 0 where
  answered : M → Answer M
  failed : RpcError → Answer M
  undecodable : PyException → Answer M

abbrev pub decoded : {M : Type 0} → Result PyException M → Answer M
decoded (ok m) = answered m
decoded (raised e) = undecodable e

module _ {B M : Type 0} (c : Codec B M) where
  -- `send_protobuf_invocation(method_name, args)`, `send_invocation` and `send_request`: the client
  -- after it, and the bytes that are sent
  unfoldable pub send_invocation : String → M → Client → Client × B
  send_invocation method_name args client = (
    record client { request_id = client.request_id + 1 },
    c.serialize_request (record {
      request_id = client.request_id + 1;
      client_id = client.client_id;
      interface_name = client.interface_name;
      method_name = method_name;
      param = c.serialize args;
    }),
  )

  abbrev pub result_of : String → Reply B → StatusCode → Answer M
  result_of response_type reply status_ok = decoded (c.parse response_type reply.param)
  result_of response_type reply code = failed (record { code = code; details = reply.details })

  -- `receive_reply`, `receive_response_param` and `receive_protobuf_result(response_type)`
  unfoldable pub receive_result : String → B → Answer M
  receive_result response_type bytes = elim (c.parse_reply bytes) [
    | raised e ↦ undecodable e
    | ok reply ↦ result_of response_type reply reply.code
  ]

  abbrev pub received : String → List B → Option (Answer M)
  received response_type [] = none
  received response_type (bytes ∷ more) = some (receive_result response_type bytes)

  abbrev pub or_empty : Option M → M
  or_empty none = c.empty
  or_empty (some m) = m

module _ {B M S : Type 0} (c : Codec B M) (r : Ranges) where
  -- `call(method_name, request, response_type)` with a server whose loop takes the request; none
  -- where it sends no reply, and the client goes on waiting. The state is that of the handlers.
  unfoldable pub call :
      Dict String (Handler M S)
      → String
      → Option M
      → String
      → Client
      → S
      → Client × Option (Answer M) × S
  unfolding send_invocation receive_result run
  call handlers method_name request response_type client s =
      let (sender, bytes) = send_invocation c method_name (or_empty c request) client in
      let (replies, e, t) = run c r handlers (bytes ∷ []) s in
      (sender, received c response_type replies, t)
