-- ===== src/TimePoints/Printing/Fractions.antt =====
-- Numbers that are printed with a fixed count of digits.
use mathlib.Core.List.{append_assoc}
use common_core.Base.{
  ℕ, zero, suc, ◌+◌, ◌-◌, ◌/◌, ◌%◌, ◌^◌, ◌≤◌, ◌<◌, ◌≡◌, refl, sym, ap, ◌∙◌, inl, inr, Bool-cases,
  [], ◌∷◌, ◌++◌, length, length-append, ltb, arith,
}
use native.Mathlib.Nat.{pow-suc}
use common_core.Base.Text.{Text}
use common_core.Base.Decimal.{
  digits, digits-small, digits-large, AllDigits, AllDigits-append, read_digits, read_digits-append,
  read_digits-digits,
}
use common_core.TimePoints.Printing.{zeros, padded}

zeros-suc : (n : ℕ) → zeros (suc n) ≡ zeros n ++ b'0' ∷ []
zeros-suc zero = refl
zeros-suc (suc n) = ap (λ z. b'0' ∷ z) (zeros-suc n)

padded-small : (d v : ℕ) → v < 10 → padded d v ≡ zeros (d - 1) ++ (48 + v) ∷ []
unfolding padded
padded-small d v h = rw (digits-small v h) refl

padded-suc_small :
    (d v : ℕ) → v < 10 → padded (suc (suc d)) v ≡ padded (suc d) (v / 10) ++ (48 + v % 10) ∷ []
padded-suc_small d v h =
    padded-small (suc (suc d)) v h
    ∙ ap (λ n. zeros n ++ (48 + v) ∷ []) two-one
    ∙ ap (λ z. z ++ (48 + v) ∷ []) (zeros-suc d)
    ∙ sym (
        ap (λ t. t ++ (48 + v % 10) ∷ [])
          (padded-small (suc d) (v / 10) (omega arith)
            ∙ ap (λ n. zeros n ++ (48 + v / 10) ∷ []) suc-one
            ∙ ap (λ q. zeros d ++ (48 + q) ∷ []) none)
        ∙ ap (λ r. (zeros d ++ b'0' ∷ []) ++ (48 + r) ∷ []) same)
  where
    two-one : suc (suc d) - 1 ≡ suc d
    two-one = omega arith

    suc-one : suc d - 1 ≡ d
    suc-one = omega arith

    none : v / 10 ≡ 0
    none = omega (arith, h)

    same : v % 10 ≡ v
    same = omega (arith, h)

padded-suc_large :
    (d v : ℕ) → 10 ≤ v → padded (suc (suc d)) v ≡ padded (suc d) (v / 10) ++ (48 + v % 10) ∷ []
unfolding padded
padded-suc_large d v h =
    let last = (48 + v % 10) ∷ [] in
    ap (λ ds. zeros (suc (suc d) - length ds) ++ ds) (digits-large v h)
    ∙ ap (λ n. zeros n ++ (digits (v / 10) ++ last))
        (omega (arith, length-append (digits (v / 10)) last))
    ∙ sym (append_assoc (zeros (suc d - length (digits (v / 10)))) (digits (v / 10)) last)

padded-suc : (d v : ℕ) → padded (suc (suc d)) v ≡ padded (suc d) (v / 10) ++ (48 + v % 10) ∷ []
padded-suc d v = elim (Bool-cases (ltb v 10)) [
  | inl small ↦ padded-suc_small d v (ground (arith, small))
  | inr large ↦ padded-suc_large d v (ground (arith, large))
]

-- A number below a power of ten is printed in as many digits, and read back.
pub record IsPadded (d v : ℕ) (t : Text) : Type 0 where
  pub count : length t ≡ d
  pub numeric : AllDigits t
  pub value : read_digits t ≡ v

pub padded-IsPadded : (d v : ℕ) → v < 10 ^ suc d → IsPadded (suc d) v (padded (suc d) v)
padded-IsPadded zero v h = rw (padded-small 1 v (omega (arith, h, pow-suc 10 0))) (record {
  count = refl;
  numeric = (ground (arith, h, pow-suc 10 0), tt);
  value =
      ap read_digits (sym (digits-small v (omega (arith, h, pow-suc 10 0)))) ∙ read_digits-digits v;
})
padded-IsPadded (suc d) v h =
    let last = padded-IsPadded d (v / 10) (omega (arith, h, pow-suc 10 (suc d))) in
    rw (padded-suc d v) (record {
      count = length-append (padded (suc d) (v / 10)) _ ∙ omega (arith, last.count);
      numeric = AllDigits-append _ _ last.numeric (ground arith);
      value = read_digits-append (padded (suc d) (v / 10)) _ ∙ omega (arith, last.value);
    })
