-- ===== src/TimePoints/Conversions.antt =====
-- What a time point is made from, and what it is converted to.
use common_core.Base.{◌+◌, ◌%◌, Bool, false, Option, none, some, if◌then◌else◌}
use common_core.Base.Text.{Text}
use common_core.Base.Int.{ℤ, pos, negsuc, neg_of, scale, plus, negated, truncated}
use common_core.Base.Result.{Result, ok, raised}
use common_core.TimePoints.Calendar.{StructTime, Datetime, Zone, timestamp}
use common_core.Intervals.Conversions.{Number, seconds, scaled}
use common_core.TimePoints.Printing.{tz_offset}

-- A `Timestamp` message
pub record Timestamp : Type 0 where
  pub seconds : ℤ
  pub nanos : ℤ

abbrev remainder : ℤ → ℤ
remainder (pos n) = pos (n % 1000000000)
remainder (negsuc n) = neg_of ((n + 1) % 1000000000)

-- `to_protobuf()`, `from_protobuf(input)`
unfoldable pub to_protobuf : ℤ → Timestamp
to_protobuf t = record { seconds = truncated t 1000000000; nanos = remainder t }

unfoldable pub from_protobuf : Timestamp → ℤ
from_protobuf m = plus (scale m.seconds 1000000000) m.nanos

pub data Failure : Type 0 where
  value_error type_error overflow_error : Failure

pub data Input : Type 0 where
  nothing : Input
  time_point : ℤ → Input
  text : Text → Input
  number : Number → Input
  datetime : Datetime → Input
  struct_time : StructTime → Input
  protobuf : Timestamp → Input
  other : Input

-- `fromisoformat` of Python's `datetime`, `float` of a text, and what `autoscaled_from` makes of a number
-- by divisions of floating-point numbers, are parameters.
module _ (z : Zone) (fromisoformat : Text → Option Datetime) (float : Text → Option Number)
    (autoscaled_from : Number → Result Failure ℤ) (now : ℤ) where
  -- `from_datetime(input, assume_utc)`
  unfoldable pub from_datetime : Datetime → Bool → ℤ
  unfolding timestamp
  from_datetime d assume_utc = elim d.tzinfo [
    | some offset ↦ timestamp z d
    | none ↦ timestamp z (if assume_utc then record d { tzinfo = some (pos 0) } else d)
  ]

  abbrev converted : Bool → Option Datetime → Result Failure ℤ
  unfolding from_datetime
  converted assume_utc none = raised value_error
  converted assume_utc (some d) = ok (from_datetime d assume_utc)

  -- `from_string(input, assume_utc)`
  unfoldable pub from_string : Text → Bool → Result Failure ℤ
  unfolding converted
  from_string input assume_utc = converted assume_utc (fromisoformat input)

  -- `from_struct_time(input, is_utc)`
  unfoldable pub from_struct_time : StructTime → Bool → ℤ
  unfolding tz_offset
  from_struct_time t is_utc =
      let local = z.mktime t in
      scale (if is_utc then plus local (negated (tz_offset z t false)) else local) 1000000000

  abbrev from_number : Option ℤ → Number → Result Failure ℤ
  from_number none n = autoscaled_from n
  from_number (some e) n = ok (seconds (scaled e n))

  -- `from_value(input, decimal_exponent, assume_utc)`
  unfoldable pub from_value : Input → Option ℤ → Bool → Result Failure ℤ
  unfolding from_string from_datetime from_struct_time from_protobuf
  from_value nothing e assume_utc = ok now
  from_value (time_point t) e assume_utc = ok t
  from_value (text s) e assume_utc = elim (float s) [
    | some n ↦ from_number e n
    | none ↦ from_string s assume_utc
  ]
  from_value (number n) e assume_utc = from_number e n
  from_value (datetime d) e assume_utc = ok (from_datetime d assume_utc)
  from_value (struct_time t) e assume_utc = ok (from_struct_time t assume_utc)
  from_value (protobuf m) e assume_utc = ok (from_protobuf m)
  from_value other e assume_utc = raised type_error

  -- `except (ValueError, TypeError)`: another exception is not caught.
  abbrev or_else : Result Failure Input → Result Failure ℤ → Result Failure Input
  or_else rest (ok t) = ok (time_point t)
  or_else rest (raised overflow_error) = raised overflow_error
  or_else rest (raised _) = rest

  abbrev fall_back : Option ℤ → Bool → Input → Result Failure Input
  unfolding from_value
  fall_back e assume_utc nothing = ok nothing
  fall_back e assume_utc given = or_else (ok given) (from_value given e assume_utc)

  -- `try_from(input, fallback, decimal_exponent, assume_utc)`
  unfoldable pub try_from : Input → Input → Option ℤ → Bool → Result Failure Input
  unfolding from_value fall_back
  try_from input fallback e assume_utc =
      or_else (fall_back e assume_utc fallback) (from_value input e assume_utc)
