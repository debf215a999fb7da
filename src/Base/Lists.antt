-- ===== src/Base/Lists.antt =====
-- Lists measured and indexed by native numbers, under the library's names, and recursive
-- predicates over lists.
use Prim.Native.Nat.{ℕ, zero, suc, ◌+◌, ◌-◌}
use mathlib.Core.Path.{◌≡◌, refl, ap}
use mathlib.Core.Bool.{Bool, true, false}
use mathlib.Core.List.{List, [], ◌∷◌, ◌++◌}
use mathlib.Core.Option.{Option, none, some}
use native.Mathlib.Omega.{arith}
use mathlib.Core.Logic.{inl, inr}
use common_core.Base.Tests.{if◌then◌else◌, Bool-cases}

module _ {ℓ} {A : Type ℓ} where
  abbrev pub length : List A → ℕ
  length [] = 0
  length (x ∷ xs) = suc (length xs)

  abbrev pub get_elem? : List A → ℕ → Option A
  get_elem? [] i = none
  get_elem? (x ∷ xs) zero = some x
  get_elem? (x ∷ xs) (suc i) = get_elem? xs i

  abbrev pub drop : ℕ → List A → List A
  drop zero xs = xs
  drop (suc n) [] = []
  drop (suc n) (x ∷ xs) = drop n xs

  pub length-append : (xs ys : List A) → length (xs ++ ys) ≡ length xs + length ys
  length-append [] ys = omega arith
  length-append (x ∷ xs) ys = omega (arith, length-append xs ys)

-- Elements that pass a Boolean test, in order: a list comprehension with `if`.
unfoldable pub select {ℓ} : {A : Type ℓ} → (A → Bool) → List A → List A
select p [] = []
select p (x ∷ xs) = let rest = select p xs in if p x then x ∷ rest else rest

-- `any(p(x) for x in xs)`
unfoldable pub any {ℓ} : {A : Type ℓ} → (A → Bool) → List A → Bool
any p [] = false
any p (x ∷ xs) = let rest = any p xs in if p x then true else rest

abbrev pub All {ℓ κ} : {A : Type ℓ} → (A → Type κ) → List A → Type κ
All P [] = Unit
All P (x ∷ xs) = P x × All P xs

module _ {ℓ} {A : Type ℓ} where
  pub drop-length : (xs ys : List A) → drop (length xs) (xs ++ ys) ≡ ys
  drop-length [] ys = refl
  drop-length (x ∷ xs) ys = drop-length xs ys

  pub length-drop : (n : ℕ) (xs : List A) → length (drop n xs) ≡ length xs - n
  length-drop zero xs = omega arith
  length-drop (suc n) [] = omega arith
  length-drop (suc n) (x ∷ xs) = omega (arith, length-drop n xs)

-- The longest beginning whose elements pass a test, and what follows it.
module _ {ℓ} {A : Type ℓ} where
  unfoldable pub take_while : (A → Bool) → List A → List A
  take_while p [] = []
  take_while p (x ∷ xs) = let rest = take_while p xs in if p x then x ∷ rest else []

  unfoldable pub drop_while : (A → Bool) → List A → List A
  drop_while p [] = []
  drop_while p (x ∷ xs) = let rest = drop_while p xs in if p x then rest else x ∷ xs

  -- Whether a list is empty or begins with an element that fails the test.
  abbrev pub stops : (A → Bool) → List A → Bool
  stops p [] = true
  stops p (x ∷ xs) = if p x then false else true

  pub take_while-append :
      (p : A → Bool) (xs ys : List A)
      → All (λ x. p x ≡ true) xs
      → stops p ys ≡ true
      → take_while p (xs ++ ys) ≡ xs
  unfolding take_while
  take_while-append p [] [] a s = refl
  take_while-append p [] (y ∷ ys) a s = ground arith
  take_while-append p (x ∷ xs) ys a s = rw a.0 (ap (λ l. x ∷ l) (take_while-append p xs ys a.1 s))

  pub drop_while-append :
      (p : A → Bool) (xs ys : List A)
      → All (λ x. p x ≡ true) xs
      → stops p ys ≡ true
      → drop_while p (xs ++ ys) ≡ ys
  unfolding drop_while
  drop_while-append p [] [] a s = refl
  drop_while-append p [] (y ∷ ys) a s = ground arith
  drop_while-append p (x ∷ xs) ys a s = rw a.0 (drop_while-append p xs ys a.1 s)

  pub length-while :
      (p : A → Bool) (xs : List A) → length (take_while p xs) + length (drop_while p xs) ≡ length xs
  unfolding take_while drop_while
  length-while p [] = omega arith
  length-while p (x ∷ xs) = elim (Bool-cases (p x)) [
    | inl t ↦ rw t (omega (arith, length-while p xs))
    | inr f ↦ rw f (omega arith)
  ]

  pub take_while-All : (p : A → Bool) (xs : List A) → All (λ x. p x ≡ true) (take_while p xs)
  unfolding take_while
  take_while-All p [] = tt
  take_while-All p (x ∷ xs) = elim (Bool-cases (p x)) [
    | inl t ↦ rw t (t, take_while-All p xs)
    | inr f ↦ rw f tt
  ]

pub All-map {ℓ κ μ} :
    {A : Type ℓ} (P : A → Type κ) (Q : A → Type μ) (xs : List A)
    → ((x : A) → P x → Q x)
    → All P xs
    → All Q xs
All-map P Q [] f a = tt
All-map P Q (x ∷ xs) f a = (f x a.0, All-map P Q xs f a.1)
