-- ===== src/Settings/Number.antt =====
-- What Python compares when `bool`, `int` and `float` values meet: their numeric values, exactly,
-- in units of 2^-1074, the smallest positive `float`.
use common_core.Base.{
  ℕ, ◌+◌, ◌-◌, ◌*◌, ◌/◌, ◌%◌, ◌^◌, ◌≡◌, refl, Bool, false, Option, none, some, nat_eq,
  if◌then◌else◌,
}
use common_core.Base.Int.{ℤ, pos, scale, neg_of, int_eq}
use common_core.Settings.Variant.{Variant, bool, int, float}

pub data Number : Type 0 where
  finite : ℤ → Number
  infinite : Bool → Number
  nan : Number

exponent : ℕ → ℕ
exponent b = b / 2 ^ 52 % 2048

fraction : ℕ → ℕ
fraction b = b % 2 ^ 52

negative : ℕ → Bool
negative b = nat_eq (b / 2 ^ 63) 1

magnitude : ℕ → ℕ
unfolding exponent fraction
magnitude b =
    if nat_eq (exponent b) 0 then fraction b else (2 ^ 52 + fraction b) * 2 ^ (exponent b - 1)

-- The value of a 64-bit pattern.
float_number : ℕ → Number
unfolding exponent fraction negative magnitude
float_number b =
    if nat_eq (exponent b) 2047
    then (if nat_eq (fraction b) 0 then infinite (negative b) else nan)
    else finite (if negative b then neg_of (magnitude b) else pos (magnitude b))

unfoldable pub number_of : Variant → Option Number
unfolding float_number
number_of (bool b) = some (finite (pos (if b then 2 ^ 1074 else 0)))
number_of (int n) = some (finite (scale n (2 ^ 1074)))
number_of (float b) = some (float_number b)
number_of _ = none

sign_eq : Bool → Bool → Bool
sign_eq a b = if a then b else (if b then false else Bool.true)

unfoldable pub number_eq : Number → Number → Bool
unfolding sign_eq
number_eq (finite a) (finite b) = int_eq a b
number_eq (infinite a) (infinite b) = sign_eq a b
number_eq _ _ = false

-- `x == y` where either side is a number.
unfoldable pub numeric_eq : Variant → Variant → Bool
unfolding number_of number_eq
numeric_eq x y = elim (number_of x) [
  | none ↦ false
  | some a ↦ elim (number_of y) [ none ↦ false | some b ↦ number_eq a b ]
]

one_is_true : numeric_eq (int (pos 1)) (bool Bool.true) ≡ Bool.true
unfolding numeric_eq
one_is_true = refl

one_is_float : numeric_eq (int (pos 1)) (float 0x3ff0000000000000) ≡ Bool.true
unfolding numeric_eq
one_is_float = refl

nan_differs : numeric_eq (float 0x7ff8000000000000) (float 0x7ff8000000000000) ≡ false
unfolding numeric_eq
nan_differs = refl
