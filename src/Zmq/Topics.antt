-- ===== src/Zmq/Topics.antt =====
-- Publishing under topics: `MessageBase`, `Publisher`, `MessageWriter`, `MessageHandler` and
-- `Subscriber` of src/core/python/messaging/zmq/basic. What the sockets carry from a publisher to its
-- subscribers are the parts of a message.
pub mod Delivered
use common_core.Base.{
  ℕ, String, Bool, true, false, ◌||◌, Option, none, some, List, [], ◌∷◌, ◌++◌, any, nat_eq,
  option_beq, list_beq, if◌then◌else◌, eq_ℕ, eq_list,
}
use common_core.Base.Result.{Result, ok, raised, apply}

abbrev pub Bytes : Type 0
Bytes = List ℕ

-- The exception TypeError
pub data Failure : Type 0 where
  type_error : Failure

-- A topic as it is passed in.
pub data Topic : Type 0 where
  no_topic : Topic
  bytes bytearray : Bytes → Topic
  text : String → Topic
  other : Topic

-- `encode_topic(topic)`, given what UTF-8 makes of a text
unfoldable pub encode_topic : (String → Bytes) → Topic → Result Failure (Option Bytes)
encode_topic utf8 no_topic = ok none
encode_topic utf8 (bytes b) = ok (some b)
encode_topic utf8 (bytearray b) = ok (some b)
encode_topic utf8 (text s) = ok (some (utf8 s))
encode_topic utf8 other = raised type_error

abbrev pub parts_of : Option Bytes → Bytes → List Bytes
parts_of none payload = payload ∷ []
parts_of (some header) payload = header ∷ payload ∷ []

-- `publish(topic, data)`: the parts that are sent
unfoldable pub publish : (String → Bytes) → Topic → Bytes → Result Failure (List Bytes)
unfolding encode_topic
publish utf8 topic payload = apply (λ header. parts_of header payload) (encode_topic utf8 topic)

-- `MessageHandler.__init__(id, subscriber, message_filter)`: a handler, told apart from others by its
-- number.
pub record MessageHandler : Type 0 where
  pub object : ℕ
  pub message_filter : Option Bytes

unfoldable pub new_handler : (String → Bytes) → ℕ → Topic → Result Failure MessageHandler
unfolding encode_topic
new_handler utf8 object topic =
    apply (λ f. record { object = object; message_filter = f }) (encode_topic utf8 topic)

abbrev pub is_not_none : Option Bytes → Bool
is_not_none none = false
is_not_none (some f) = true

abbrev pub join : List Bytes → Bytes
join [] = []
join (part ∷ parts) = part ++ join parts

abbrev pub tail : List Bytes → List Bytes
tail [] = []
tail (part ∷ parts) = parts

-- `combine_parts(parts, remove_header)`
unfoldable pub combine_parts : List Bytes → Bool → Bytes
combine_parts parts remove_header = if remove_header then join (tail parts) else join parts

-- `Subscriber`: its handlers, in the order in which they were added, and the filters that its socket
-- holds.
pub record Subscriber : Type 0 where
  pub subscriptions : List MessageHandler
  pub filters : List Bytes

abbrev pub new_subscriber : Subscriber
new_subscriber = record { subscriptions = []; filters = [] }

-- `self.subscriptions.add(handler)` on a set
unfoldable pub add_once : MessageHandler → List MessageHandler → List MessageHandler
add_once h [] = h ∷ []
add_once h (g ∷ hs) =
    let rest = add_once h hs in if nat_eq g.object h.object then g ∷ hs else g ∷ rest

-- `setsockopt(zmq.UNSUBSCRIBE, filter)`
unfoldable pub drop_filter : Bytes → List Bytes → List Bytes
drop_filter f [] = []
drop_filter f (g ∷ fs) = let rest = drop_filter f fs in if list_beq g f then fs else g ∷ rest

add_filter : MessageHandler → Option Bytes → Subscriber → Result Failure Subscriber
unfolding add_once
add_filter h none s = raised type_error
add_filter h (some f) s =
    ok (record { subscriptions = add_once h s.subscriptions; filters = s.filters ++ f ∷ [] })

-- `add(handler)`: its first message takes the length of the filter
unfoldable pub add : MessageHandler → Subscriber → Result Failure Subscriber
unfolding add_filter
add h s = add_filter h h.message_filter s

-- `remove(handler)`: its first message formats three values with two places
unfoldable pub remove : MessageHandler → Subscriber → Result Failure Subscriber
remove h s = raised type_error

abbrev pub drop_option : Option Bytes → List Bytes → List Bytes
drop_option none fs = fs
drop_option (some f) fs = drop_filter f fs

drop_each : List MessageHandler → List Bytes → List Bytes
drop_each [] fs = fs
drop_each (h ∷ hs) fs = drop_each hs (drop_option h.message_filter fs)

-- `clear()`
unfoldable pub clear : Subscriber → Subscriber
unfolding drop_each drop_filter
clear s = record { subscriptions = []; filters = drop_each s.subscriptions s.filters }

-- What a handler is called with: its number and the payload.
abbrev pub handle_parts : MessageHandler → List Bytes → ℕ × Bytes
handle_parts h parts = (h.object, combine_parts parts (is_not_none h.message_filter))

abbrev pub is_first : Option Bytes → List Bytes → Bool
is_first f [] = false
is_first f (part ∷ parts) = option_beq f (some part)

-- `_process_message(parts)`: the calls that it makes, each of which may fail by itself
unfoldable pub process_message : List Bytes → List MessageHandler → List (ℕ × Bytes)
unfolding combine_parts
process_message parts [] = []
process_message parts (h ∷ hs) =
    let rest = process_message parts hs in
    if option_beq h.message_filter none || is_first h.message_filter parts
    then handle_parts h parts ∷ rest
    else rest

-- A message reaches the subscriber if a filter of its socket lets it pass.
unfoldable pub receive :
    (List Bytes → List Bytes → Bool) → List Bytes → Subscriber → List (ℕ × Bytes)
unfolding process_message
receive passes parts s =
    if passes s.filters parts then process_message parts s.subscriptions else []
