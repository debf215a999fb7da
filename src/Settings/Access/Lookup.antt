-- ===== src/Settings/Access/Lookup.antt =====
-- What `get_value` returns.
use common_core.Base.Result.{ok, raised}
use common_core.Base.{
  ℕ, zero, suc, String, ◌≡◌, refl, ◌⊎◌, inl, Bool, true, false, Option, none, some, List, [], ◌∷◌,
  map, ltb, if◌then◌else◌, arith,
}
use common_core.Base.Int.{ℤ, pos, negsuc}
use common_core.Settings.Variant.{Variant, str, list, dict, Items, nil, item, Fields}
use common_core.Settings.Fields.{get, at, at-none}
use common_core.Settings.Access.{
  Error, type_error, key_error, index_error, value_error, Result, ◌>>=◌, Component, key, index,
  count_items, nth, item_at, or_key_error, subscript, descend, PyType, is_any_of, PathArgument,
  Options, handle_failure, and_then_ok, normalized_path, check_type, get_value,
}

-- The options under which a caller gets the default rather than an exception.
record IsLenient (o : Options) : Type 0 where
  pub types : o.raise_invalid_type ≡ false
  pub missing : o.raise_missing ≡ false

-- The errors of a lookup are TypeError, KeyError and IndexError.
abbrev Handled : Result Variant → Type 0
Handled (ok v) = Unit
Handled (raised value_error) = ⊥
Handled (raised _) = Unit

nth-Handled : (i : ℕ) (xs : Items) → Handled (nth i xs)
nth-Handled i nil = tt
nth-Handled zero (item v xs) = tt
nth-Handled (suc i) (item v xs) = nth-Handled i xs

Handled-if :
    (b : Bool) (r s : Result Variant) → Handled r → Handled s → Handled (if b then r else s)
Handled-if true r s h k = h
Handled-if false r s h k = k

item_at-Handled : (xs : Items) (i : ℤ) → Handled (item_at xs i)
unfolding item_at
item_at-Handled xs (pos i) = nth-Handled i xs
item_at-Handled xs (negsuc i) = Handled-if (ltb i (count_items xs)) _ _ (nth-Handled _ xs) tt

or_key_error-Handled : (o : Option Variant) → Handled (or_key_error o)
unfolding or_key_error
or_key_error-Handled none = tt
or_key_error-Handled (some v) = tt

subscript-Handled : (v : Variant) (c : Component) → Handled (subscript v c)
unfolding subscript
subscript-Handled (dict d) (key k) = or_key_error-Handled (get k d)
subscript-Handled (list xs) (index i) = item_at-Handled xs i
subscript-Handled _ _ = tt

Handled-bind :
    (r : Result Variant) (f : Variant → Result Variant)
    → Handled r
    → ((v : Variant) → Handled (f v))
    → Handled (r >>= f)
Handled-bind (ok v) f h k = k v
Handled-bind (raised value_error) f h k = absurd h
Handled-bind (raised _) f h k = h

descend-Handled : (v : Variant) (p : List Component) → Handled (descend v p)
unfolding descend
descend-Handled v [] = tt
descend-Handled v (c ∷ p) =
    Handled-bind (subscript v c) (λ w. descend w p) (subscript-Handled v c)
      (λ w. descend-Handled w p)

-- What a lenient lookup makes of the descent.
abbrev or_default : Options → Result Variant → Variant
or_default o (ok v) = v
or_default o (raised e) = o.default

lenient_result :
    (o : Options) (r : Result Variant)
    → IsLenient o
    → Handled r
    → elim r [ ok v ↦ ok v | raised e ↦ handle_failure o e ] ≡ ok (or_default o r)
unfolding handle_failure
lenient_result o (ok v) l h = refl
lenient_result o (raised value_error) l h = absurd h
lenient_result o (raised type_error) l h = rw l.types
lenient_result o (raised key_error) l h = rw l.missing
lenient_result o (raised index_error) l h = rw l.missing

-- The value at a path, or the default.
abbrev pub value_or : Variant → Option Variant → Variant
value_or default none = default
value_or default (some v) = v

or_default-descend :
    (o : Options) (v : Variant) (p : List String)
    → or_default o (descend v (map key p)) ≡ value_or o.default (at (some v) p)
unfolding descend at subscript or_key_error
or_default-descend o v [] = refl
or_default-descend o (dict d) (k ∷ p) = below (get k d) (λ w. or_default-descend o w p)
  where
    below :
        (w : Option Variant)
        → ((v : Variant)
            → or_default o (descend v (map key p)) ≡ value_or o.default (at (some v) p))
        → or_default o (or_key_error w >>= λ next. descend next (map key p))
          ≡ value_or o.default (at w p)
    below none ih = rw at-none
    below (some w) ih = ih w
or_default-descend o _ (k ∷ p) = rw at-none

handle_failure-default :
    (o : Options) (e : Error) {v : Variant} → handle_failure o e ≡ ok v → v ≡ o.default
unfolding handle_failure
handle_failure-default o e h = ground arith

check_type-typed :
    (convert : List PyType → String → Result Variant) (o : Options) (types : List PyType)
    (value : Variant) {v : Variant}
    → ((s : String) (w : Variant) → convert types s ≡ ok w → is_any_of types w ≡ true)
    → check_type convert o (some types) value ≡ ok v
    → (v ≡ o.default) ⊎ (is_any_of types v ≡ true)
unfolding check_type
check_type-typed convert o types (str s) {v} constructs h = ground (arith, constructs s v)
check_type-typed convert o types _ constructs h = ground arith

module _ (convert : List PyType → String → Result Variant) (store : Fields) where
  -- With both flags off and no expected type, `get_value` raises nothing on a proper `key` or
  -- `path`: it returns the value that the path leads to, or the default if the path leads nowhere.
  get_value_lenient :
      (k : Option String) (p : Option PathArgument) (o : Options) {q : List Component}
      → IsLenient o
      → normalized_path k p ≡ ok q
      → get_value convert store k p none o ≡ ok (or_default o (descend (dict store) q))
  unfolding get_value
  get_value_lenient k p o {q} l e =
      rw e (lenient_result o (descend (dict store) q) l (descend-Handled (dict store) q))

  -- A value that `get_value` returns for an expected type, or for a union of types, is an instance
  -- of it or is the default, provided that what a type returns when it is called is its instance.
  get_value_typed :
      (k : Option String) (p : Option PathArgument) (types : List PyType) (o : Options)
      {v : Variant}
      → ((s : String) (w : Variant) → convert types s ≡ ok w → is_any_of types w ≡ true)
      → get_value convert store k p (some types) o ≡ ok v
      → (v ≡ o.default) ⊎ (is_any_of types v ≡ true)
  unfolding get_value
  get_value_typed k p types o {v} constructs e =
      let (q, _, found) = and_then_ok (normalized_path k p) _ e in
      outcome (descend (dict store) q) found
    where
      outcome :
          (r : Result Variant)
          → elim r [
            | ok value ↦ check_type convert o (some types) value
            | raised f ↦ handle_failure o f
          ]
            ≡ ok v
          → (v ≡ o.default) ⊎ (is_any_of types v ≡ true)
      outcome (ok value) h = check_type-typed convert o types value constructs h
      outcome (raised f) h = inl (handle_failure-default o f h)
