-- ===== src/TimePoints/Days.antt =====
-- The ordinal of a day's date.
use common_core.Base.{
  ℕ, zero, suc, ◌+◌, ◌-◌, ◌*◌, ◌≤◌, ◌<◌, ◌≡◌, refl, ◌∙◌, inl, inr, Bool-cases, List, [], ◌∷◌,
  length, ltb, arith,
}
use common_core.TimePoints.Calendar.{
  days_in_year, days_before_year, days_of_months, split_years, split_months,
}

days_before_year-suc :
    (y : ℕ) → 1 ≤ y → days_before_year (suc y) ≡ days_before_year y + days_in_year y
unfolding days_before_year
days_before_year-suc y h = ground arith

abbrev pub days_to : ℕ × ℕ → ℕ
days_to (y, days) = days_before_year y + days

pub split_years-sum :
    (fuel y days : ℕ) → 1 ≤ y → days_to (split_years fuel y days) ≡ days_before_year y + days
unfolding split_years
split_years-sum zero y days h = refl
split_years-sum (suc fuel) y days h = elim (Bool-cases (ltb days (days_in_year y))) [
  | inl t ↦ rw t refl
  | inr f ↦ rw f (
      split_years-sum fuel (suc y) (days - days_in_year y) (omega arith)
      ∙ ground (arith, days_before_year-suc y h, f))
]

-- Enough rounds leave less than a year.
pub split_years-within :
    (fuel y days : ℕ)
    → days < fuel * 365
    → (split_years fuel y days).1 < days_in_year (split_years fuel y days).0
unfolding split_years
split_years-within zero y days h = absurd (ground arith)
split_years-within (suc fuel) y days h = elim (Bool-cases (ltb days (days_in_year y))) [
  | inl t ↦ rw t (ground (arith, t))
  | inr f ↦ rw f (split_years-within fuel (suc y) (days - days_in_year y) (ground (arith, f)))
]

pub split_years-from : (fuel y days : ℕ) → y ≤ (split_years fuel y days).0
unfolding split_years
split_years-from zero y days = omega arith
split_years-from (suc fuel) y days = elim (Bool-cases (ltb days (days_in_year y))) [
  | inl t ↦ rw t (omega arith)
  | inr f ↦ rw f (omega (arith, split_years-from fuel (suc y) (days - days_in_year y)))
]

-- A day within the months is in one of them.
pub split_months-sum :
    (m : ℕ) (ns : List ℕ) (days : ℕ)
    → days < days_of_months (length ns) ns
    → (k : ℕ) × ((split_months m ns days).0 ≡ m + k)
      × (days_of_months k ns + (split_months m ns days).1 ≡ days)
      × (k < length ns)
      × (days < days_of_months (suc k) ns)
unfolding split_months days_of_months
split_months-sum m [] days h = absurd (ground arith)
split_months-sum m (n ∷ ns) days h = elim (Bool-cases (ltb days n)) [
  | inl t ↦ (0, rw t (omega arith), rw t (omega arith), omega arith, ground (arith, t))
  | inr f ↦
      let (k, place, sum, within, below) =
        split_months-sum (suc m) ns (days - n) (ground (arith, f)) in
      (
        suc k,
        rw f (omega (arith, place)),
        rw f (ground (arith, sum, f)),
        omega (arith, within),
        ground (arith, below, f),
      )
]
