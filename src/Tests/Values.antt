-- ===== src/Tests/Values.antt =====
-- The codec of src/core/python/protobuf/variant/variant.py on small values.
use common_core.Base.{◌≡◌, refl, Bool, true, false, [], ◌∷◌, leb}
use common_core.Base.Int.{ℤ, pos, negsuc}
use common_core.Base.Result.{ok, raised, is_ok}
use common_core.Values.{
  PyValue, none_value, int, bytes, list, tuple, dict, nil, item, end, field, Value, name_error,
  Ranges, encode_value, decode_value,
}
use common_core.Values.Roundtrip.{returned, encode_value-is_ok, encode_value-decode_value}

-- 64-bit fields
abbrev pub takes_negative : ℤ → Bool
takes_negative (pos n) = true
takes_negative (negsuc n) = leb n 9223372036854775807

abbrev pub ranges : Ranges
ranges = record { takes_uint = λ n. leb n 18446744073709551615; takes_sint = takes_negative }

-- {"a": (1, -2, 3), "b": {}}
abbrev sample : PyValue
sample = dict (
    field "a" (tuple (item (int (pos 1)) (item (int (negsuc 1)) (item (int (pos 3)) nil))))
      (field "b" (dict end) end))

returned_run :
    returned sample
    ≡ dict (
        field "a"
          (list (item (int (pos 1)) (item (int (negsuc 1)) (item (int (pos 3)) nil))))
          (field "b" none_value end))
returned_run = refl

encode_value-is_ok_example : is_ok (encode_value ranges (list nil)) ≡ false
encode_value-is_ok_example = encode_value-is_ok ranges (list nil)

encode_value-decode_value_example :
    (e : Value) × (encode_value ranges sample ≡ ok e) × (decode_value e ≡ returned sample)
encode_value-decode_value_example = encode_value-decode_value ranges sample refl

bytes_run : encode_value ranges (bytes (1 ∷ [])) ≡ raised name_error
unfolding encode_value
bytes_run = refl
