-- ===== src/Base/Decimal.antt =====
-- Decimal digits of a natural number, as codes of characters: Python's `str(n)` and `int(text)`.
use Prim.Native.Nat.{ℕ, zero, suc, ◌+◌, ◌-◌, ◌*◌, ◌/◌, ◌%◌, ◌<◌, ◌≤◌}
use mathlib.Core.Path.{◌≡◌, refl, ap, ◌∙◌}
use mathlib.Core.Logic.{◌≢◌, inl, inr}
use mathlib.Core.Bool.{Bool, true, ◌&&◌}
use mathlib.Core.List.{List, [], ◌∷◌, ◌++◌}
use native.Mathlib.Omega.{arith}
use common_core.Base.Tests.{lt→ltb, if◌then◌else◌, ltb, leb, Bool-cases}
use common_core.Base.Lists.{All}

abbrev pub is_digit : ℕ → Bool
is_digit c = leb 48 c && leb c 57

-- The digits of `n`, most significant first; one round of fuel for each digit.
unfoldable pub digits_within : ℕ → ℕ → List ℕ
digits_within zero n = []
digits_within (suc fuel) n =
    let rest = digits_within fuel (n / 10) ++ (48 + n % 10) ∷ [] in
    if ltb n 10 then (48 + n) ∷ [] else rest

-- A number has fewer digits than it has units, and at least one.
unfoldable pub digits : ℕ → List ℕ
unfolding digits_within
digits n = digits_within (suc n) n

unfoldable pub read_onto : ℕ → List ℕ → ℕ
read_onto n [] = n
read_onto n (c ∷ cs) = read_onto (n * 10 + (c - 48)) cs

unfoldable pub read_digits : List ℕ → ℕ
unfolding read_onto
read_digits cs = read_onto 0 cs

read_onto-append :
    (n c : ℕ) (cs : List ℕ) → read_onto n (cs ++ c ∷ []) ≡ read_onto n cs * 10 + (c - 48)
unfolding read_onto
read_onto-append n c [] = refl
read_onto-append n c (d ∷ cs) = read_onto-append (n * 10 + (d - 48)) c cs

pub read_digits-append :
    (cs : List ℕ) (c : ℕ) → read_digits (cs ++ c ∷ []) ≡ read_digits cs * 10 + (c - 48)
unfolding read_digits
read_digits-append cs c = read_onto-append 0 c cs

read_digits_within : (fuel n : ℕ) → n < fuel → read_onto 0 (digits_within fuel n) ≡ n
unfolding digits_within read_onto
read_digits_within zero n h = elim h [ ]
read_digits_within (suc fuel) n h = elim (Bool-cases (ltb n 10)) [
  | inl small ↦ rw small (omega arith)
  | inr large ↦ rw large (
      read_onto-append 0 (48 + n % 10) (digits_within fuel (n / 10))
      ∙ ap (λ k. k * 10 + (48 + n % 10 - 48)) (read_digits_within fuel (n / 10) (ground arith))
      ∙ omega arith)
]

pub read_digits-digits : (n : ℕ) → read_digits (digits n) ≡ n
unfolding read_digits digits
read_digits-digits n = read_digits_within (suc n) n (omega arith)

abbrev pub AllDigits : List ℕ → Type 0
AllDigits cs = All (λ c. is_digit c ≡ true) cs

pub AllDigits-append :
    (cs : List ℕ) (c : ℕ) → AllDigits cs → is_digit c ≡ true → AllDigits (cs ++ c ∷ [])
AllDigits-append [] c a h = (h, tt)
AllDigits-append (d ∷ cs) c a h = (a.0, AllDigits-append cs c a.1 h)

AllDigits-digits_within : (fuel n : ℕ) → AllDigits (digits_within fuel n)
unfolding digits_within
AllDigits-digits_within zero n = tt
AllDigits-digits_within (suc fuel) n = elim (Bool-cases (ltb n 10)) [
  | inl small ↦ rw small (ground arith, tt)
  | inr large ↦ rw large (
      AllDigits-append (digits_within fuel (n / 10)) (48 + n % 10)
        (AllDigits-digits_within fuel (n / 10)) (ground arith))
]

pub digits-AllDigits : (n : ℕ) → AllDigits (digits n)
unfolding digits
digits-AllDigits n = AllDigits-digits_within (suc n) n

append-ne-nil : (cs : List ℕ) (c : ℕ) → cs ++ c ∷ [] ≢ []
append-ne-nil [] c h = cc
append-ne-nil (d ∷ cs) c h = cc

pub digits-ne-nil : (n : ℕ) → digits n ≢ []
unfolding digits digits_within
digits-ne-nil n = elim (Bool-cases (ltb n 10)) [
  | inl small ↦ rw small (λ h. cc)
  | inr large ↦ rw large (append-ne-nil _ _)
]

digits_within-enough : (f g n : ℕ) → n < f → n < g → digits_within f n ≡ digits_within g n
unfolding digits_within
digits_within-enough zero g n h k = elim h [ ]
digits_within-enough (suc f) zero n h k = elim k [ ]
digits_within-enough (suc f) (suc g) n h k = elim (Bool-cases (ltb n 10)) [
  | inl small ↦ rw small refl
  | inr large ↦ rw large (
      ap (λ ds. ds ++ (48 + n % 10) ∷ [])
        (digits_within-enough f g (n / 10) (ground arith) (ground arith)))
]

pub digits-small : (n : ℕ) → n < 10 → digits n ≡ (48 + n) ∷ []
unfolding digits digits_within
digits-small n h = rw (lt→ltb n 10 h) refl

pub digits-large : (n : ℕ) → 10 ≤ n → digits n ≡ digits (n / 10) ++ (48 + n % 10) ∷ []
unfolding digits digits_within
digits-large n h = elim (Bool-cases (ltb n 10)) [
  | inl small ↦ absurd (ground arith)
  | inr large ↦ rw large (
      ap (λ ds. ds ++ (48 + n % 10) ∷ [])
        (digits_within-enough n (suc (n / 10)) (n / 10) (ground arith) (omega arith)))
]
