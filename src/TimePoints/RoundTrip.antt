-- ===== src/TimePoints/RoundTrip.antt =====
-- Printing a time point for the world and reading it back.
use common_core.Base.{
  ℕ, suc, ◌+◌, ◌-◌, ◌*◌, ◌/◌, ◌%◌, ◌^◌, ◌≤◌, ◌<◌, ◌≡◌, refl, ap, ◌∙◌, Bool, false, Option, some, [],
  ◌∷◌, ◌++◌, length, arith, nat_eq,
}
use common_core.Base.Text.{Text}
use common_core.Base.Int.{ℤ, pos, minus}
use common_core.Base.Result.{Result, ok}
use common_core.Base.Decimal.{AllDigits, read_digits}
use common_core.TimePoints.Calendar.{
  days_in_year, days_before_year, months_of, days_of_months, ordinal, epoch, split_years,
  split_months, StructTime, gmtime, date_on, Datetime, seconds_of, Zone, timestamp,
}
use common_core.TimePoints.Days.{
  days_to, split_years-sum, split_years-within, split_years-from, split_months-sum,
}
use common_core.TimePoints.Printing.{
  date_and_time, padded, fraction_text, zone_text, to_struct_time, to_string, to_iso8601_string,
}
use common_core.TimePoints.Printing.Fractions.{padded-IsPadded}
use common_core.Intervals.Conversions.{Number}
use common_core.TimePoints.Conversions.{Failure, from_datetime, from_string}

-- A date and time of the calendar, in a year of four digits
pub record IsTime (t : StructTime) : Type 0 where
  pub year : (1000 ≤ t.year) × (t.year < 10000)
  pub month : (1 ≤ t.month) × (t.month ≤ 12)
  pub day :
      (1 ≤ t.day)
      × (days_of_months (t.month - 1) (months_of t.year) + t.day
          ≤ days_of_months t.month (months_of t.year))
  pub hour : t.hour < 24
  pub minute : t.minute < 60
  pub second : t.second < 60

days_of_year : (y : ℕ) → days_of_months (length (months_of y)) (months_of y) ≡ days_in_year y
unfolding days_of_months
days_of_year y = ground arith

-- A year and days after its first day
record IsDate (n : ℕ) (ya : ℕ × ℕ) : Type 0 where
  sum : days_to ya ≡ 719162 + n
  within : ya.1 < days_in_year ya.0
  from : 1970 ≤ ya.0

split_years-IsDate : (n : ℕ) → IsDate n (split_years (suc (n / 365)) 1970 n)
unfolding days_before_year
split_years-IsDate n = record {
  sum = split_years-sum (suc (n / 365)) 1970 n (omega arith);
  within = split_years-within (suc (n / 365)) 1970 n (omega arith);
  from = split_years-from (suc (n / 365)) 1970 n;
}

split :
    (ya : ℕ × ℕ)
    → ya.1 < days_in_year ya.0
    → (k : ℕ) × ((split_months 1 (months_of ya.0) ya.1).0 ≡ 1 + k)
      × (days_of_months k (months_of ya.0) + (split_months 1 (months_of ya.0) ya.1).1 ≡ ya.1)
      × (k < 12)
      × (ya.1 < days_of_months (suc k) (months_of ya.0))
split ya h = split_months-sum 1 (months_of ya.0) ya.1 (omega (arith, h, days_of_year ya.0))

-- The calendar time of a number of seconds counts that many seconds.
seconds_of-date_on :
    (n rest : ℕ) (ya : ℕ × ℕ)
    → IsDate n ya
    → seconds_of (date_on ya rest) ≡ n * 86400 + rest + epoch * 86400
unfolding ordinal seconds_of
seconds_of-date_on n rest ya h =
    let (k, place, sum, small, below) = split ya h.within in
    let month : days_of_months ((split_months 1 (months_of ya.0) ya.1).0 - 1) (months_of ya.0)
        ≡ days_of_months k (months_of ya.0) =
      ap (λ m. days_of_months m (months_of ya.0)) (omega (arith, place)) in
    omega (arith, h.sum, sum, month)

year_of_four : (ya : ℕ × ℕ) (n : ℕ) → IsDate n ya → n < 2932897 → ya.0 < 10000
unfolding days_before_year
year_of_four ya n h l = omega (arith, h.sum, l)

date_on-IsTime :
    (n rest : ℕ) (ya : ℕ × ℕ) → IsDate n ya → n < 2932897 → rest < 86400 → IsTime (date_on ya rest)
date_on-IsTime n rest ya h l r =
    let (k, place, sum, small, below) = split ya h.within in
    let lens = months_of ya.0 in
    let before : days_of_months ((split_months 1 lens ya.1).0 - 1) lens ≡ days_of_months k lens =
      ap (λ m. days_of_months m lens) (omega (arith, place)) in
    let through : days_of_months (split_months 1 lens ya.1).0 lens ≡ days_of_months (suc k) lens =
      ap (λ m. days_of_months m lens) (omega (arith, place)) in
    record {
      year = (omega (arith, h.from), year_of_four ya n h l);
      month = (omega (arith, place), omega (arith, place, small));
      day = (omega arith, omega (arith, before, through, sum, below));
      hour = omega (arith, r);
      minute = omega (arith, r);
      second = omega (arith, r);
    }

-- What the documentation of `datetime.fromisoformat` promises of a date and a time with a delimiter, a
-- fraction of one to six digits and a `Z`
pub record ReadsIso (fromisoformat : Text → Option Datetime) : Type 0 where
  pub reads :
      (t : StructTime) (delimiter e : ℕ) (fraction : Text)
      → IsTime t
      → t.is_dst ≡ false
      → e < 6
      → length fraction ≡ suc e
      → AllDigits fraction
      → fromisoformat (date_and_time (delimiter ∷ []) t ++ (b'.' ∷ (fraction ++ b'Z' ∷ [])))
        ≡ some (record {
          time = t;
          microsecond = read_digits fraction * 10 ^ (5 - e);
          tzinfo = some (pos 0);
        })

gmtime-IsTime : (n : ℕ) → n < 253402300800 → IsTime (gmtime n)
unfolding gmtime
gmtime-IsTime n h =
    date_on-IsTime (n / 86400) (n % 86400) (split_years (suc (n / 86400 / 365)) 1970 (n / 86400))
      (split_years-IsDate (n / 86400)) (omega (arith, h)) (omega arith)

seconds_of-gmtime : (n : ℕ) → seconds_of (gmtime n) ≡ n + epoch * 86400
unfolding gmtime
seconds_of-gmtime n =
    seconds_of-date_on (n / 86400) (n % 86400) _ (split_years-IsDate (n / 86400)) ∙ omega arith

gmtime-is_dst : (n : ℕ) → (gmtime n).is_dst ≡ false
unfolding gmtime
gmtime-is_dst n = refl

minus-back : (a b c : ℕ) → a ≡ c + b → minus a b ≡ pos c
minus-back a b c h = ground (arith, h)

module _ (z : Zone) (fromisoformat : Text → Option Datetime) (float : Text → Option Number)
    (autoscaled_from : Number → Result Failure ℤ) (now : ℤ) (shown : ℕ → ℕ → ℕ) where
  printed :
      (e t : ℕ)
      → to_iso8601_string z shown (suc e) t
        ≡ date_and_time (b'T' ∷ []) (gmtime (t / 1000000000))
          ++ (b'.' ∷ (padded (suc e) (shown (suc e) t) ++ b'Z' ∷ []))
  unfolding to_iso8601_string to_string to_struct_time fraction_text zone_text
  printed e t = rw (not_zero e) refl
    where
      not_zero : (n : ℕ) → nat_eq (suc n) 0 ≡ false
      not_zero n = ground arith

  -- A time point from the epoch to the end of the year 9999, printed for the world with one to six
  -- decimals, is read back as its whole seconds and the fraction of a second that the printed decimals
  -- show, if `fromisoformat` reads what its documentation promises and the fraction, as the
  -- floating-point product gives it, is a number of as many digits as are printed.
  pub from_string_back :
      ReadsIso fromisoformat
      → (e t : ℕ) → e < 6
      → t / 1000000000 < 253402300800
      → shown (suc e) t < 10 ^ suc e
      → (assume_utc : Bool)
      → from_string z fromisoformat float autoscaled_from now
          (to_iso8601_string z shown (suc e) t)
          assume_utc
        ≡ ok (pos (t / 1000000000 * 1000000000 + shown (suc e) t * 10 ^ (5 - e) * 1000))
  unfolding from_string from_datetime timestamp
  from_string_back law e t few early small assume_utc =
      let s = t / 1000000000 in
      let p = padded-IsPadded e (shown (suc e) t) small in
      let read =
        law.reads (gmtime s) b'T' e _ (gmtime-IsTime s early) (gmtime-is_dst s) few p.count
          p.numeric in
      let value : read_digits (padded (suc e) (shown (suc e) t)) * 10 ^ (5 - e) * 1000
          ≡ shown (suc e) t * 10 ^ (5 - e) * 1000 =
        ap (λ v. v * 10 ^ (5 - e) * 1000) p.value in
      rw (printed e t, read) (ap ok (minus-back _ _ _ (omega (arith, seconds_of-gmtime s, value))))
