-- ===== src/TimePoints/Calendar.antt =====
-- The calendar of Python's `time` and `datetime`, as far as
-- src/core/python/core/timeutils/timepoint.py uses it, for times from the epoch on.
use common_core.Base.{
  ℕ, zero, suc, ◌+◌, ◌-◌, ◌*◌, ◌/◌, ◌%◌, Bool, false, ◌&&◌, ◌||◌, not, List, [], ◌∷◌, nat_eq, ltb,
  Option, none, some, if◌then◌else◌,
}
use common_core.Base.Int.{ℤ, pos, negsuc, minus}
use common_core.Base.Text.{Text}

abbrev pub is_leap : ℕ → Bool
is_leap y = nat_eq (y % 4) 0 && (not (nat_eq (y % 100) 0) || nat_eq (y % 400) 0)

abbrev pub days_in_year : ℕ → ℕ
days_in_year y = if is_leap y then 366 else 365

-- The days before a year, from the year 1 on
unfoldable pub days_before_year : ℕ → ℕ
days_before_year y = let n = y - 1 in n * 365 + n / 4 - n / 100 + n / 400

abbrev pub months_of : ℕ → List ℕ
months_of y =
    31 ∷ (if is_leap y then 29 else 28) ∷ 31 ∷ 30 ∷ 31 ∷ 30 ∷ 31 ∷ 31 ∷ 30 ∷ 31 ∷ 30 ∷ 31 ∷ []

-- The days of the first months of a list
unfoldable pub days_of_months : ℕ → List ℕ → ℕ
days_of_months n [] = 0
days_of_months zero (m ∷ ms) = 0
days_of_months (suc n) (m ∷ ms) = m + days_of_months n ms

-- `date.toordinal()`
unfoldable pub ordinal : ℕ → ℕ → ℕ → ℕ
ordinal y m d = days_before_year y + days_of_months (m - 1) (months_of y) + d

-- The ordinal of the epoch
abbrev pub epoch : ℕ
epoch = 719163

-- The year of a number of days after the first day of a year, and the days that are left
unfoldable pub split_years : ℕ → ℕ → ℕ → ℕ × ℕ
split_years zero y days = (y, days)
split_years (suc fuel) y days =
    let later = split_years fuel (suc y) (days - days_in_year y) in
    if ltb days (days_in_year y) then (y, days) else later

unfoldable pub split_months : ℕ → List ℕ → ℕ → ℕ × ℕ
split_months m [] days = (m, days)
split_months m (n ∷ ns) days =
    let later = split_months (suc m) ns (days - n) in if ltb days n then (m, days) else later

pub record StructTime : Type 0 where
  pub year : ℕ
  pub month : ℕ
  pub day : ℕ
  pub hour : ℕ
  pub minute : ℕ
  pub second : ℕ
  pub is_dst : Bool

-- The time of a second of the day, in a year, a month and after some days of it
abbrev pub time_on : ℕ → ℕ × ℕ → ℕ → StructTime
time_on y md rest = record {
  year = y;
  month = md.0;
  day = suc md.1;
  hour = rest / 3600;
  minute = rest / 60 % 60;
  second = rest % 60;
  is_dst = false;
}

abbrev pub date_on : ℕ × ℕ → ℕ → StructTime
date_on ya rest = time_on ya.0 (split_months 1 (months_of ya.0) ya.1) rest

-- `time.gmtime(seconds)`; a year has at least 365 days.
unfoldable pub gmtime : ℕ → StructTime
gmtime seconds =
    let days = seconds / 86400 in
    date_on (split_years (suc (days / 365)) 1970 days) (seconds % 86400)

-- What `datetime` adds to a calendar time: microseconds, and the offset of a zone in seconds
pub record Datetime : Type 0 where
  pub time : StructTime
  pub microsecond : ℕ
  pub tzinfo : Option ℤ

-- Seconds since the beginning of the year 1, less a day
unfoldable pub seconds_of : StructTime → ℕ
seconds_of t = ordinal t.year t.month t.day * 86400 + t.hour * 3600 + t.minute * 60 + t.second

abbrev pub from_epoch_by : ℕ → ℤ → ℤ
from_epoch_by n (pos offset) = minus n ((epoch * 86400 + offset) * 1000000000)
from_epoch_by n (negsuc offset) = minus (n + (offset + 1) * 1000000000) (epoch * 86400 * 1000000000)

-- The zone of the system: `time.localtime`, `time.mktime`, `timestamp()` of a time without a zone,
-- `time.tzname`, `time.altzone` and `time.timezone`
pub record Zone : Type 0 where
  pub localtime : ℕ → StructTime
  pub mktime : StructTime → ℤ
  pub local_timestamp : Datetime → ℤ
  pub tzname : Bool → Text
  pub altzone : ℤ
  pub timezone : ℤ

-- `timestamp()`, in nanoseconds
unfoldable pub timestamp : Zone → Datetime → ℤ
timestamp z d = elim d.tzinfo [
  | none ↦ z.local_timestamp d
  | some offset ↦ from_epoch_by (seconds_of d.time * 1000000000 + d.microsecond * 1000) offset
]
