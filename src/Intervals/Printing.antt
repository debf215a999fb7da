-- ===== src/Intervals/Printing.antt =====
-- `to_string` with its formats `to_iso8601_string` and `to_json_string` of
-- src/core/python/core/timeutils/timeinterval.py, without the argument `decimals`.
use common_core.Base.Text.{Text}
use common_core.Base.{
  ℕ, ◌+◌, ◌-◌, ◌*◌, ◌/◌, ◌%◌, Bool, true, false, ◌&&◌, ◌||◌, not, List, [], ◌∷◌, ◌++◌, ltb, leb,
  nat_eq, if◌then◌else◌,
}
use common_core.Base.Int.{ℤ, pos, negsuc}
use common_core.Base.Decimal.{digits}
use common_core.Intervals.{second, minute, hour, day, week, month, year, leap}

-- The arguments of `to_string`; a suffix that is None is the empty text. `negative_sign` is not read.
pub record Format : Type 0 where
  pub years_suffix : Text
  pub months_suffix : Text
  pub weeks_suffix : Text
  pub days_suffix : Text
  pub hours_suffix : Text
  pub minutes_suffix : Text
  pub seconds_suffix : Text
  pub component_separator : Text
  pub positive_sign : Text
  pub preamble : Text
  pub date_time_separator : Text

abbrev pub is_empty : Text → Bool
is_empty [] = true
is_empty (c ∷ cs) = false

abbrev pub no_parts : List Text → Bool
no_parts [] = true
no_parts (part ∷ parts) = false

-- The loop over the components with a suffix and a division: the parts, and what remains
unfoldable pub components : List (Text × ℕ) → ℕ → List Text × ℕ
components [] remainder = ([], remainder)
components ((suffix, division) ∷ more) remainder =
    let taken = components more (remainder % division) in
    let passed = components more remainder in
    if not (is_empty suffix) && leb division remainder
    then ((digits (remainder / division) ++ suffix) ∷ taken.0, taken.1)
    else passed

-- Three digits
abbrev pub three_digits : ℕ → Text
three_digits n = (48 + n / 100) ∷ (48 + n / 10 % 10) ∷ (48 + n % 10) ∷ []

-- The nine digits of `%.9f` without the groups of three zeros that end them
unfoldable pub fraction_digits : ℕ → Text
fraction_digits n =
    let a = n / 1000000 in
    let b = n / 1000 % 1000 in
    let c = n % 1000 in
    if nat_eq c 0
    then if nat_eq b 0
      then if nat_eq a 0 then [] else three_digits a
      else three_digits a ++ three_digits b
    else three_digits a ++ (three_digits b ++ three_digits c)

-- `string.rstrip(".,")`: a point that no digits follow is dropped.
abbrev pub with_point : Text → Text
with_point [] = []
with_point (c ∷ cs) = b'.' ∷ c ∷ cs

unfoldable pub seconds_text : ℕ → Text
unfolding fraction_digits
seconds_text n = digits (n / second) ++ with_point (fraction_digits (n % second))

-- component_separator.join(parts)
abbrev pub join : Text → List Text → Text
join separator [] = []
join separator (part ∷ []) = part
join separator (part ∷ next ∷ parts) = part ++ (separator ++ join separator (next ∷ parts))

-- `self` or `-self`, and the sign
abbrev pub magnitude : ℤ → ℕ
magnitude (pos n) = n
magnitude (negsuc n) = n + 1

abbrev pub sign_of : Text → ℤ → Text
sign_of positive (pos n) = if nat_eq n 0 then [] else positive
sign_of positive (negsuc n) = b'-' ∷ []

-- For durations of more than four years, leap days are subtracted.
abbrev pub without_leap_days : ℕ → ℕ
without_leap_days n = if ltb leap n then n - day * (n / leap) else n

abbrev pub one_if : Bool → Text → List Text
one_if b part = if b then part ∷ [] else []

unfoldable pub parts_of : Format → ℕ → List Text
unfolding components seconds_text
parts_of f n =
    let (dates, after_dates) =
      components
        ((f.years_suffix, year)
          ∷ (f.months_suffix, month)
          ∷ (f.weeks_suffix, week)
          ∷ (f.days_suffix, day)
          ∷ [])
        n in
    let separator =
      one_if
        (not (is_empty f.date_time_separator) && (not (nat_eq after_dates 0) || no_parts dates))
        f.date_time_separator in
    let (times, after_times) =
      components ((f.hours_suffix, hour) ∷ (f.minutes_suffix, minute) ∷ []) after_dates in
    let above = dates ++ (separator ++ times) in
    above
    ++ one_if (not (is_empty f.seconds_suffix) && (not (nat_eq after_times 0) || no_parts above))
        (seconds_text after_times ++ f.seconds_suffix)

-- `to_string(...)`
unfoldable pub to_string : Format → ℤ → Text
unfolding parts_of
to_string f t =
    sign_of f.positive_sign t
    ++ (f.preamble ++ join f.component_separator (parts_of f (without_leap_days (magnitude t))))

-- Without arguments
abbrev pub default_format : Format
default_format = record {
  years_suffix = b'y' ∷ [];
  months_suffix = [];
  weeks_suffix = [];
  days_suffix = b'd' ∷ [];
  hours_suffix = b'h' ∷ [];
  minutes_suffix = b'm' ∷ [];
  seconds_suffix = b's' ∷ [];
  component_separator = b' ' ∷ [];
  positive_sign = [];
  preamble = [];
  date_time_separator = [];
}

abbrev pub iso8601_format : Format
iso8601_format = record {
  years_suffix = b'Y' ∷ [];
  months_suffix = [];
  weeks_suffix = [];
  days_suffix = b'D' ∷ [];
  hours_suffix = b'H' ∷ [];
  minutes_suffix = b'M' ∷ [];
  seconds_suffix = b'S' ∷ [];
  component_separator = [];
  positive_sign = [];
  preamble = b'P' ∷ [];
  date_time_separator = b'T' ∷ [];
}

abbrev pub json_format : Format
json_format = record default_format {
  years_suffix = [];
  days_suffix = [];
  hours_suffix = [];
  minutes_suffix = [];
}

-- `to_iso8601_string()`
unfoldable pub to_iso8601_string : ℤ → Text
unfolding to_string
to_iso8601_string t = to_string iso8601_format t

-- `to_json_string()`
unfoldable pub to_json_string : ℤ → Text
unfolding to_string
to_json_string t = to_string json_format t
