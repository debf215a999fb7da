-- ===== src/Zmq/Rpc.antt =====
-- Remote calls over ZeroMQ: the messages, the handlers and the errors of
-- src/core/python/messaging/zmq/protobuf. The sockets carry the bytes of a request to the server and
-- those of its reply back.
pub mod Server
pub mod Client
pub mod Call
pub mod Replies
use common_core.Base.{ℕ, String, Option}
use common_core.Base.Result.{Result}
use common_core.Values.{PyItems, KeyValueMap}
use common_core.Values

-- The status codes that the code names; a new reply has the first.
pub data StatusCode : Type 0 where
  status_ok status_invalid status_failed : StatusCode

-- `cc.protobuf.status.Error`, by the fields that the code sets
pub record Event : Type 0 where
  pub text : String
  pub symbol : String
  pub attributes : KeyValueMap

pub record Request (B : Type 0) : Type 0 where
  pub request_id : ℕ
  pub client_id : ℕ
  pub interface_name : String
  pub method_name : String
  pub param : B

pub record Reply (B : Type 0) : Type 0 where
  pub request_id : ℕ
  pub client_id : ℕ
  pub code : StatusCode
  pub details : Event
  pub param : B

-- A Python exception, by what the code reads of it.
pub record PyException : Type 0 where
  pub name : String
  pub text : String
  pub args : PyItems

-- The exceptions that leave the server's loop.
pub data Failure : Type 0 where
  name_error type_error attribute_error : Failure
  not_decoded : PyException → Failure
  not_encoded : Values.Failure → Failure

-- ProtoBuf: the bytes `B` of messages `M` of a given type, and of requests and replies.
pub record Codec (B M : Type 0) : Type 0 where
  pub no_bytes : B
  pub serialize : M → B
  pub parse : String → B → Result PyException M
  pub empty : M
  pub serialize_request : Request B → B
  pub parse_request : B → Result PyException (Request B)
  pub serialize_reply : Reply B → B
  pub parse_reply : B → Result PyException (Reply B)

-- `Error`
pub record RpcError : Type 0 where
  pub code : StatusCode
  pub details : Event

unfoldable pub add_to_reply : {B : Type 0} → RpcError → Reply B → Reply B
add_to_reply e reply = record reply { code = e.code; details = e.details }

-- What a handler method does: return a message, None or something else, or raise an exception.
pub data Outcome (M : Type 0) : Type 0 where
  returned : M → Outcome M
  returned_none returned_other : Outcome M
  excepted : PyException → Outcome M

-- The argument of a method after `self`, with the type of messages that annotates it.
pub data Argument : Type 0 where
  no_argument unannotated annotated_other : Argument
  annotated : String → Argument

-- A method with the state `S` that it changes.
pub record Method (M S : Type 0) : Type 0 where
  pub name : String
  pub argument : Argument
  pub invoke : Option M → S → Outcome M × S

pub data Attribute (M S : Type 0) : Type 0 where
  not_callable : Attribute M S
  method : Method M S → Attribute M S

-- `attribute` is what `getattr` finds.
pub record Handler (M S : Type 0) : Type 0 where
  pub interface_name : String
  pub attribute : String → Option (Attribute M S)
