-- ===== src/Zmq/Address.antt =====
-- Service addresses `[SCHEME://][HOST][:PORT]`: `_splitAddress`, `_joinAddress` and `_realaddress` of
-- src/core/python/messaging/zmq/basic/endpoint.py. Texts are lists of ASCII codes.
pub mod RoundTrip
use common_core.Base.Text.{Text}
use common_core.Base.{
  ℕ, Bool, true, false, not, ◌&&◌, ◌||◌, Option, none, some, List, [], ◌∷◌, ◌++◌, leb, nat_eq, drop,
  take_while, drop_while, if◌then◌else◌,
}
use common_core.Base.Result.{Result, ok, raised}
use common_core.Base.Decimal.{is_digit, digits, read_digits}

-- The class \w
abbrev pub is_word : ℕ → Bool
is_word c = is_digit c || (leb b'A' c && leb c b'Z') || (leb b'a' c && leb c b'z') || nat_eq c b'_'

-- The classes [\w\.:] and [\w\-\.]
abbrev pub is_bracketed : ℕ → Bool
is_bracketed c = is_word c || nat_eq c b'.' || nat_eq c b':'

abbrev pub is_host : ℕ → Bool
is_host c = is_word c || nat_eq c b'-' || nat_eq c b'.'

-- What separates the scheme from the host: "://"
abbrev pub separator : Text
separator = b':' ∷ b'/' ∷ b'/' ∷ []

abbrev pub starts_with : Text → Text → Bool
starts_with [] t = true
starts_with (p ∷ ps) [] = false
starts_with (p ∷ ps) (c ∷ cs) = let rest = starts_with ps cs in if nat_eq c p then rest else false

abbrev pub has_scheme : Text → Bool
has_scheme target = starts_with separator (drop_while is_word target)

-- The groups of `_rx_address`: the scheme, the host, and the digits of the port
unfoldable pub cut_scheme : Text → Text × Text
cut_scheme target =
    if has_scheme target
    then (take_while is_word target, drop 3 (drop_while is_word target))
    else ([], target)

abbrev pub is_closed : Text → Bool
is_closed t = starts_with (b']' ∷ []) (drop_while is_bracketed t)

unfoldable pub cut_host : Text → Text × Text
cut_host [] = ([], [])
cut_host (c ∷ cs) =
    if nat_eq c b'*'
    then (c ∷ [], cs)
    else if nat_eq c b'[' && is_closed cs
    then (c ∷ (take_while is_bracketed cs ++ b']' ∷ []), drop 1 (drop_while is_bracketed cs))
    else (take_while is_host (c ∷ cs), drop_while is_host (c ∷ cs))

abbrev pub is_empty : Text → Bool
is_empty [] = true
is_empty (c ∷ cs) = false

unfoldable pub cut_port : Text → Option ℕ
cut_port [] = none
cut_port (c ∷ cs) =
    if nat_eq c b':' && not (is_empty (take_while is_digit cs))
    then some (read_digits (take_while is_digit cs))
    else none

-- `_splitAddress(target)`
unfoldable pub split_address : Text → Text × Text × Option ℕ
unfolding cut_scheme cut_host cut_port
split_address target =
    let (scheme, behind) = cut_scheme target in
    let (host, rest) = cut_host behind in (scheme, host, cut_port rest)

-- A component of an address: the text that it is formatted as, whether it is true as a condition,
-- and whether it is a string.
pub record Component : Type 0 where
  pub text : Text
  pub is_true : Bool
  pub is_string : Bool

abbrev pub of_text : Text → Component
of_text t = record { text = t; is_true = not (is_empty t); is_string = true }

abbrev pub of_port : ℕ → Component
of_port n = record { text = digits n; is_true = not (nat_eq n 0); is_string = false }

-- The exception TypeError
pub data Failure : Type 0 where
  type_error : Failure

-- `_joinAddress(scheme, name, port)`
unfoldable pub join_address : Component → Component → Component → Result Failure Text
join_address scheme name port =
    if name.is_string
    then ok (
        (if scheme.is_true then scheme.text ++ separator else [])
        ++ (name.text ++ (if port.is_true then b':' ∷ port.text else [])))
    else raised type_error

-- The keys of the settings for a channel
pub data Key : Type 0 where
  scheme_key host_key listen_key port_key : Key

abbrev pub or_setting : (Key → Component → Component) → Key → Component → Text → Component
or_setting setting key default [] = setting key default
or_setting setting key default (c ∷ cs) = of_text (c ∷ cs)

abbrev pub port_or_setting : (Key → Component → Component) → Option ℕ → Component
port_or_setting setting none = setting port_key (of_port 5555)
port_or_setting setting (some n) = of_port n

-- `provided or self._provided_address or ""`
abbrev pub target_of : Option Text → Option Text → Text
target_of (some (c ∷ cs)) initial = c ∷ cs
target_of provided (some t) = t
target_of provided none = []

abbrev pub tcp : Text
tcp = b't' ∷ b'c' ∷ b'p' ∷ []

-- `_realaddress(provided, "scheme", host key, "port", "tcp", host, 5555)`; the first argument is
-- `setting(key, default)`
unfoldable pub real_address :
    (Key → Component → Component) → Key → Text → Option Text → Option Text → Result Failure Text
unfolding split_address join_address
real_address setting key host provided initial =
    let (scheme, name, port) = split_address (target_of provided initial) in
    join_address (or_setting setting scheme_key (of_text tcp) scheme)
      (or_setting setting key (of_text host) name) (port_or_setting setting port)

-- `sanitized_host_address(provided)`, by default localhost
unfoldable pub sanitized_host_address :
    (Key → Component → Component) → Option Text → Option Text → Result Failure Text
unfolding real_address
sanitized_host_address setting provided initial =
    real_address setting host_key
      (b'l' ∷ b'o' ∷ b'c' ∷ b'a' ∷ b'l' ∷ b'h' ∷ b'o' ∷ b's' ∷ b't' ∷ []) provided initial

-- `sanitized_bind_address(provided)`, by default "*"
unfoldable pub sanitized_bind_address :
    (Key → Component → Component) → Option Text → Option Text → Result Failure Text
unfolding real_address
sanitized_bind_address setting provided initial =
    real_address setting listen_key (b'*' ∷ []) provided initial
