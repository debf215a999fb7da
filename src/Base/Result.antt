-- ===== src/Base/Result.antt =====
-- What a function returns that may raise an exception.
use mathlib.Core.Path.{◌≡◌, refl}
use mathlib.Core.Logic.{◌⊎◌, inl, inr}
use mathlib.Core.Bool.{Bool, true, false}

pub data Result (E : Type 0) (A : Type 0) : Type 0 where
  ok : A → Result E A
  raised : E → Result E A

module _ {E A B : Type 0} where
  abbrev pub chain : Result E A → (A → Result E B) → Result E B
  chain (ok a) f = f a
  chain (raised e) f = raised e

  abbrev pub apply : (A → B) → Result E A → Result E B
  apply f (ok a) = ok (f a)
  apply f (raised e) = raised e

module _ {E A : Type 0} where
  abbrev pub is_ok : Result E A → Bool
  is_ok (ok a) = true
  is_ok (raised e) = false

  pub value-is_ok : (r : Result E A) → is_ok r ≡ true → (a : A) × (r ≡ ok a)
  value-is_ok (ok a) h = (a, refl)
  value-is_ok (raised e) h = cc

  -- To split on a computed result and keep the equation.
  pub Result-cases : (r : Result E A) → ((a : A) × (r ≡ ok a)) ⊎ ((e : E) × (r ≡ raised e))
  Result-cases (ok a) = inl (a, refl)
  Result-cases (raised e) = inr (e, refl)
