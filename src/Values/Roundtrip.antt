-- ===== src/Values/Roundtrip.antt =====
-- Which native values the codec takes, and what they are after encoding and decoding.
use common_core.Base.{◌≡◌, refl, sym, ap, ◌∙◌, Bool, true, false, ◌&&◌, if◌then◌else◌}
use mathlib.Core.Bool.{false≢true}
use common_core.Base.Int.{ℤ, pos, negsuc}
use common_core.Base.Result.{Result, ok, raised, apply, chain, is_ok}
use common_core.Values.{
  PyValue, none_value, bool, int, float, str, bytes, list, tuple, dict, PyItems, nil, item,
  PyFields, end, field, Value, ValueList, value_list, KeyValueMap, no_keys, keyed, value,
  value_uint, value_sint, value_error, Failure, Ranges, encode_int, choose_list, set_kvmap,
  is_tagged_list, encode_tagged_list, encode_value, encode_value_list, encode_key_value_map,
  decode_value, decode_value_list, decode_key_value_map,
}

-- A sequence that begins with an item other than a pair.
abbrev pub begins_plain : PyItems → Bool
begins_plain nil = false
begins_plain (item (tuple (item tag (item v nil))) xs) = false
begins_plain (item v xs) = true

module _ (r : Ranges) where
  -- The values that can be encoded: no bytes anywhere, no integer out of range, and no sequence that
  -- is empty or begins with a pair.
  abbrev pub int_fits : ℤ → Bool
  int_fits (pos n) = r.takes_uint n
  int_fits (negsuc n) = r.takes_sint (negsuc n)

  abbrev mutual
    pub encodable : PyValue → Bool
    encodable none_value = true
    encodable (bool b) = true
    encodable (int n) = int_fits n
    encodable (float b) = true
    encodable (str s) = true
    encodable (bytes b) = false
    encodable (list xs) = begins_plain xs && all_encodable xs
    encodable (tuple xs) = begins_plain xs && all_encodable xs
    encodable (dict d) = fields_encodable d

    pub all_encodable : PyItems → Bool
    all_encodable nil = true
    all_encodable (item v xs) = encodable v && all_encodable xs

    pub fields_encodable : PyFields → Bool
    fields_encodable end = true
    fields_encodable (field k v d) = encodable v && fields_encodable d

-- A value as it comes back: a tuple as a list, and an empty dictionary as None.
abbrev mutual
  pub returned : PyValue → PyValue
  returned (list xs) = list (all_returned xs)
  returned (tuple xs) = list (all_returned xs)
  returned (dict end) = none_value
  returned (dict (field k v d)) = dict (field k (returned v) (fields_returned d))
  returned v = v

  pub all_returned : PyItems → PyItems
  all_returned nil = nil
  all_returned (item v xs) = item (returned v) (all_returned xs)

  pub fields_returned : PyFields → PyFields
  fields_returned end = end
  fields_returned (field k v d) = field k (returned v) (fields_returned d)

-- `r` is an encoding that `decode` brings back to `v`, where the value can be encoded, and an error
-- where not.
abbrev pub Comes : {A B : Type 0} → (A → B) → B → Bool → Result Failure A → Type 0
Comes decode v can (ok a) = (can ≡ true) × (decode a ≡ v)
Comes decode v can (raised e) = can ≡ false

both-Comes :
    {A B C A' B' C' : Type 0} (f : A → B → C) (da : A → A') (db : B → B') (dc : C → C') (va : A')
    (vb : B') (vc : C') (ca cb : Bool) (a : Result Failure A) (b : Result Failure B)
    → ((x : A) (y : B) → da x ≡ va → db y ≡ vb → dc (f x y) ≡ vc)
    → Comes da va ca a
    → Comes db vb cb b
    → Comes dc vc (ca && cb) (chain a (λ e. apply (f e) b))
both-Comes f da db dc va vb vc ca cb (raised e) b h x y = rw x refl
both-Comes f da db dc va vb vc ca cb (ok a) (raised e) h x y = rw (x.0, y) refl
both-Comes f da db dc va vb vc ca cb (ok a) (ok b) h x y = (rw (x.0, y.0) refl, h a b x.1 y.1)

listed :
    (xs : PyItems) (can : Bool) (b : Result Failure ValueList)
    → Comes decode_value_list (all_returned xs) can b
    → Comes decode_value (list (all_returned xs)) can (apply value_list b)
unfolding decode_value
listed xs can (raised e) c = c
listed xs can (ok a) c = (c.0, ap list c.1)

module _ (r : Ranges) where
  sequence-Comes :
      (xs : PyItems) (can : Bool) (b : Result Failure ValueList)
      → Comes decode_value_list (all_returned xs) can b
      → Comes decode_value
          (list (all_returned xs))
          (begins_plain xs && can)
          (choose_list r (is_tagged_list xs) (encode_tagged_list xs) b)
  unfolding is_tagged_list encode_tagged_list
  sequence-Comes nil can b c = refl
  sequence-Comes (item (tuple (item tag (item v nil))) xs) can b c = refl
  sequence-Comes (item v xs) can b c = listed (item v xs) can b c

  int-Comes : (n : ℤ) → Comes decode_value (int n) (int_fits r n) (encode_int r n)
  unfolding encode_int decode_value
  int-Comes (pos n) =
      elim (r.takes_uint n)
        as (λ b.
          Comes decode_value (int (pos n)) b
            (if b then ok (value_uint n) else raised value_error)) [
              | true ↦ (refl, refl)
              | false ↦ refl
            ]
  int-Comes (negsuc n) =
      elim (r.takes_sint (negsuc n))
        as (λ b.
          Comes decode_value (int (negsuc n)) b
            (if b then ok (value_sint (negsuc n)) else raised value_error)) [
              | true ↦ (refl, refl)
              | false ↦ refl
            ]

  mapped :
      (d : PyFields) (can : Bool) (b : Result Failure KeyValueMap)
      → Comes decode_key_value_map (fields_returned d) can b
      → Comes decode_value (returned (dict d)) can (apply (set_kvmap r) b)
  unfolding decode_value decode_key_value_map
  mapped d can (raised e) c = c
  mapped end can (ok no_keys) c = (c.0, refl)
  mapped end can (ok (keyed k v m)) c = cc
  mapped (field j w d) can (ok no_keys) c = cc
  mapped (field j w d) can (ok (keyed k v m)) c = (c.0, ap dict c.1)

module _ (r : Ranges) where
  mutual
    unfolding encode_value encode_value_list encode_key_value_map decode_value decode_value_list
        decode_key_value_map

    encode_value-Comes :
        (v : PyValue) → Comes decode_value (returned v) (encodable r v) (encode_value r v)
    encode_value-Comes none_value = (refl, refl)
    encode_value-Comes (bool b) = (refl, refl)
    encode_value-Comes (int n) = int-Comes r n
    encode_value-Comes (float b) = (refl, refl)
    encode_value-Comes (str s) = (refl, refl)
    encode_value-Comes (bytes b) = refl
    encode_value-Comes (list xs) =
        sequence-Comes r xs (all_encodable r xs) (encode_value_list r xs)
          (encode_value_list-Comes xs)
    encode_value-Comes (tuple xs) =
        sequence-Comes r xs (all_encodable r xs) (encode_value_list r xs)
          (encode_value_list-Comes xs)
    encode_value-Comes (dict d) =
        mapped r d (fields_encodable r d) (encode_key_value_map r d) (encode_key_value_map-Comes d)

    encode_value_list-Comes :
        (xs : PyItems)
        → Comes decode_value_list (all_returned xs) (all_encodable r xs) (encode_value_list r xs)
    encode_value_list-Comes nil = (refl, refl)
    encode_value_list-Comes (item v xs) =
        both-Comes value decode_value decode_value_list decode_value_list (returned v)
          (all_returned xs) (item (returned v) (all_returned xs)) (encodable r v)
          (all_encodable r xs) (encode_value r v) (encode_value_list r xs) (λ x y p q. cc)
          (encode_value-Comes v) (encode_value_list-Comes xs)

    encode_key_value_map-Comes :
        (d : PyFields)
        → Comes decode_key_value_map
            (fields_returned d)
            (fields_encodable r d)
            (encode_key_value_map r d)
    encode_key_value_map-Comes end = (refl, refl)
    encode_key_value_map-Comes (field k v d) =
        both-Comes (keyed k) decode_value decode_key_value_map decode_key_value_map (returned v)
          (fields_returned d) (field k (returned v) (fields_returned d)) (encodable r v)
          (fields_encodable r d) (encode_value r v) (encode_key_value_map r d) (λ x y p q. cc)
          (encode_value-Comes v) (encode_key_value_map-Comes d)

  -- A value can be encoded exactly if it holds no bytes, no integer out of range of the message
  -- fields, and no sequence that is empty or begins with a pair.
  pub encode_value-is_ok : (v : PyValue) → is_ok (encode_value r v) ≡ encodable r v
  encode_value-is_ok v = by_result (encode_value r v) (encode_value-Comes v)
    where
      by_result :
          (x : Result Failure Value)
          → Comes decode_value (returned v) (encodable r v) x
          → is_ok x ≡ encodable r v
      by_result (ok e) c = sym c.0
      by_result (raised f) c = sym c

  -- A value without bytes, integers out of range, and sequences that are empty or begin with a pair
  -- is encoded, and decoding gives it back, with lists for tuples and None for empty dictionaries.
  pub encode_value-decode_value :
      (v : PyValue)
      → encodable r v ≡ true
      → (e : Value) × (encode_value r v ≡ ok e) × (decode_value e ≡ returned v)
  encode_value-decode_value v h = by_result (encode_value r v) refl (encode_value-Comes v)
    where
      by_result :
          (x : Result Failure Value)
          → encode_value r v ≡ x
          → Comes decode_value (returned v) (encodable r v) x
          → (e : Value) × (encode_value r v ≡ ok e) × (decode_value e ≡ returned v)
      by_result (ok e) q c = (e, q, c.1)
      by_result (raised f) q c = absurd (false≢true (sym c ∙ h))
