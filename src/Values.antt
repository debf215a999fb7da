-- ===== src/Values.antt =====
-- The codec of src/core/python/protobuf/variant/variant.py between native Python values and `Value`
-- messages. Time points and intervals, and arguments that are messages already, are left out.
pub mod Roundtrip
use common_core.Base.{ℕ, String, Bool, true, false, ◌&&◌, List, if◌then◌else◌}
use common_core.Base.Int.{ℤ, pos, negsuc}
use common_core.Base.Result.{Result, ok, raised, apply, chain}

-- A native value. A `float` is its 64-bit pattern; the keys of a dictionary are strings.
mutual
  pub data PyValue : Type 0 where
    none_value : PyValue
    bool : Bool → PyValue
    int : ℤ → PyValue
    float : ℕ → PyValue
    str : String → PyValue
    bytes : List ℕ → PyValue
    list tuple : PyItems → PyValue
    dict : PyFields → PyValue

  pub data PyItems : Type 0 where
    nil : PyItems
    item : PyValue → PyItems → PyItems

  pub data PyFields : Type 0 where
    end : PyFields
    field : String → PyValue → PyFields → PyFields

-- A `Value` message: the field of its `oneof` that is set. A map field is taken in the order in
-- which its keys were added.
mutual
  pub data Value : Type 0 where
    unset : Value
    value_bool : Bool → Value
    value_uint : ℕ → Value
    value_sint : ℤ → Value
    value_real : ℕ → Value
    value_string : String → Value
    value_bytes : List ℕ → Value
    value_list : ValueList → Value
    value_tvlist : TaggedValueList → Value
    value_kvmap : KeyValueMap → Value

  pub data ValueList : Type 0 where
    no_values : ValueList
    value : Value → ValueList → ValueList

  pub data TaggedValueList : Type 0 where
    no_tagged : TaggedValueList
    tagged : String → Value → TaggedValueList → TaggedValueList

  pub data KeyValueMap : Type 0 where
    no_keys : KeyValueMap
    keyed : String → Value → KeyValueMap → KeyValueMap

pub data Failure : Type 0 where
  name_error value_error : Failure

-- `is_tagged_list(value_list)`: a first item that is a pair leads to a name that is not defined.
unfoldable pub is_tagged_list : PyItems → Result Failure Bool
is_tagged_list nil = ok true
is_tagged_list (item (tuple (item tag (item v nil))) xs) = raised name_error
is_tagged_list (item v xs) = ok false

-- `encodeTaggedValueList(input, output)` for a native sequence: its first test reads a name that is
-- not defined.
unfoldable pub encode_tagged_list : PyItems → Result Failure TaggedValueList
encode_tagged_list xs = raised name_error

-- Which integers the message fields take.
pub record Ranges : Type 0 where
  pub takes_uint : ℕ → Bool
  pub takes_sint : ℤ → Bool

module _ (r : Ranges) where
  encode_int : ℤ → Result Failure Value
  encode_int (pos n) = if r.takes_uint n then ok (value_uint n) else raised value_error
  encode_int (negsuc n) =
      if r.takes_sint (negsuc n) then ok (value_sint (negsuc n)) else raised value_error

  -- `value_list` or `value_tvlist`, by the test on the sequence
  abbrev pub choose_list :
      Result Failure Bool
      → Result Failure TaggedValueList
      → Result Failure ValueList
      → Result Failure Value
  choose_list (raised e) tags values = raised e
  choose_list (ok true) tags values = apply value_tvlist tags
  choose_list (ok false) tags values = apply value_list values

  -- `output.value_kvmap`, which is set once a key is added to it
  abbrev pub set_kvmap : KeyValueMap → Value
  set_kvmap no_keys = unset
  set_kvmap (keyed k v m) = value_kvmap (keyed k v m)

  -- `encodeValue(input)`, `encodeValueList(input)`, `encodeKeyValueMap(input)`
  unfoldable mutual
    unfolding encode_int is_tagged_list encode_tagged_list

    pub encode_value : PyValue → Result Failure Value
    encode_value none_value = ok unset
    encode_value (bool b) = ok (value_bool b)
    encode_value (int n) = encode_int n
    encode_value (float b) = ok (value_real b)
    encode_value (str s) = ok (value_string s)
    encode_value (bytes b) = raised name_error
    encode_value (list xs) =
        choose_list (is_tagged_list xs) (encode_tagged_list xs) (encode_value_list xs)
    encode_value (tuple xs) =
        choose_list (is_tagged_list xs) (encode_tagged_list xs) (encode_value_list xs)
    encode_value (dict d) = apply set_kvmap (encode_key_value_map d)

    pub encode_value_list : PyItems → Result Failure ValueList
    encode_value_list nil = ok no_values
    encode_value_list (item v xs) =
        chain (encode_value v) (λ e. apply (value e) (encode_value_list xs))

    pub encode_key_value_map : PyFields → Result Failure KeyValueMap
    encode_key_value_map end = ok no_keys
    encode_key_value_map (field k v d) =
        chain (encode_value v) (λ e. apply (keyed k e) (encode_key_value_map d))

-- `decodeValue(input)` and the decoders of lists, tagged lists and maps
unfoldable mutual
  pub decode_value : Value → PyValue
  decode_value unset = none_value
  decode_value (value_bool b) = bool b
  decode_value (value_uint n) = int (pos n)
  decode_value (value_sint n) = int n
  decode_value (value_real b) = float b
  decode_value (value_string s) = str s
  decode_value (value_bytes b) = bytes b
  decode_value (value_list xs) = list (decode_value_list xs)
  decode_value (value_tvlist xs) = list (decode_tagged_value_list xs)
  decode_value (value_kvmap m) = dict (decode_key_value_map m)

  pub decode_value_list : ValueList → PyItems
  decode_value_list no_values = nil
  decode_value_list (value v xs) = item (decode_value v) (decode_value_list xs)

  pub decode_tagged_value_list : TaggedValueList → PyItems
  decode_tagged_value_list no_tagged = nil
  decode_tagged_value_list (tagged tag v xs) =
      item (tuple (item (str tag) (item (decode_value v) nil))) (decode_tagged_value_list xs)

  pub decode_key_value_map : KeyValueMap → PyFields
  decode_key_value_map no_keys = end
  decode_key_value_map (keyed k v m) = field k (decode_value v) (decode_key_value_map m)
