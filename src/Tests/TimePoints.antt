-- ===== src/Tests/TimePoints.antt =====
-- Points in time that are printed, read and scaled.
use mathlib.Core.List.{append_assoc}
use common_core.Base.{
  ℕ, ◌+◌, ◌-◌, ◌*◌, ◌/◌, ◌%◌, ◌^◌, ◌≡◌, refl, sym, ap, ◌∙◌, false, Option, none, some, [], ◌∷◌,
  ◌++◌, length, take_while, drop_while, take_while-append, drop_while-append, arith,
}
use common_core.Base.Text.{Text, rest_of}
use common_core.Base.Int.{pos}
use common_core.Base.Result.{ok}
use common_core.Base.Decimal.{
  is_digit, digits, digits_within, read_digits, read_onto, read_digits-digits, digits-AllDigits,
}
use common_core.TimePoints.Calendar.{Datetime, Zone, gmtime, split_years, split_months}
use common_core.TimePoints.Printing.{
  date_and_time, fraction_text, padded, zone_text, to_struct_time, to_string, to_iso8601_string,
}
use common_core.TimePoints.Conversions.{from_string}
use common_core.TimePoints.RoundTrip.{ReadsIso, from_string_back}

abbrev take_two : Text → ℕ × Text
take_two [] = (0, [])
take_two (a ∷ []) = (0, [])
take_two (a ∷ b ∷ t) = ((a - 48) * 10 + (b - 48), t)

-- Reads a year, the other parts of two digits, a fraction, and takes the zone for `Z`.
abbrev after_year : ℕ → Text → Option Datetime
after_year y t =
    let month = take_two (rest_of t) in
    let day = take_two (rest_of month.1) in
    let hour = take_two (rest_of day.1) in
    let minute = take_two (rest_of hour.1) in
    let second = take_two (rest_of minute.1) in
    let fraction = take_while is_digit (rest_of second.1) in
    some (record {
      time = record {
        year = y;
        month = month.0;
        day = day.0;
        hour = hour.0;
        minute = minute.0;
        second = second.0;
        is_dst = false;
      };
      microsecond = read_digits fraction * 10 ^ (6 - length fraction);
      tzinfo = some (pos 0);
    })

abbrev pub read_iso : Text → Option Datetime
read_iso t = after_year (read_digits (take_while is_digit t)) (drop_while is_digit t)

two : (n : ℕ) → (48 + n / 10 - 48) * 10 + (48 + n % 10 - 48) ≡ n
two n = omega arith

read_year : (y : ℕ) (t : Text) → read_iso (digits y ++ (b'-' ∷ t)) ≡ after_year y (b'-' ∷ t)
unfolding take_while
read_year y t =
    rw
      (
        take_while-append is_digit (digits y) (b'-' ∷ t) (digits-AllDigits y) refl,
        drop_while-append is_digit (digits y) (b'-' ∷ t) (digits-AllDigits y) refl,
        read_digits-digits y,
      )
      refl

read_iso-ReadsIso : ReadsIso read_iso
unfolding date_and_time
read_iso-ReadsIso = record {
  reads = λ t delimiter e fraction time plain few count numeric.
      let left : 6 - length fraction ≡ 5 - e = omega (arith, count) in
      ap read_iso (append_assoc (digits t.year) _ (b'.' ∷ (fraction ++ b'Z' ∷ [])))
      ∙ read_year t.year _
      ∙ rw
          (
            take_while-append is_digit fraction (b'Z' ∷ []) numeric refl,
            left,
            two t.month,
            two t.day,
            two t.hour,
            two t.minute,
            two t.second,
          )
          (ap
            (λ b. some (record {
              time = record t { is_dst = b };
              microsecond = read_digits fraction * 10 ^ (5 - e);
              tzinfo = some (pos 0);
            }))
            (sym plain));
}

-- The system's zone is the world's.
abbrev pub world : Zone
world = record {
  localtime = gmtime;
  mktime = λ t. pos 0;
  local_timestamp = λ d. pos 0;
  tzname = λ dst. b'U' ∷ b'T' ∷ b'C' ∷ [];
  altzone = pos 0;
  timezone = pos 0;
}

-- In floating point a thousand times the fraction of 1709251199.123 falls short of 123.
abbrev cut_short : ℕ → ℕ → ℕ
cut_short decimals t = (10 ^ decimals * (t % 1000000000) - 1) / 1000000000

-- The last second of February in the year 2024, and what is left of its milliseconds
from_string_back_example :
    from_string world read_iso
      (λ t. none)
      (λ n. ok (pos 0))
      (pos 0)
      (to_iso8601_string world cut_short 3 1709251199123000000)
      false
    ≡ ok (pos 1709251199122000000)
from_string_back_example =
    from_string_back world read_iso (λ t. none) (λ n. ok (pos 0)) (pos 0) cut_short
      read_iso-ReadsIso 2 1709251199123000000 (omega arith) (omega arith) (omega arith) false

leap_run :
    read_iso (to_iso8601_string world cut_short 3 1709251199123000000)
    ≡ some (record {
      time = record {
        year = 2024;
        month = 2;
        day = 29;
        hour = 23;
        minute = 59;
        second = 59;
        is_dst = false;
      };
      microsecond = 122000;
      tzinfo = some (pos 0);
    })
unfolding to_iso8601_string to_string to_struct_time gmtime split_years split_months date_and_time
    fraction_text padded zone_text take_while drop_while digits digits_within read_digits read_onto
leap_run = refl
