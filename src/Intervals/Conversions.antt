-- ===== src/Intervals/Conversions.antt =====
-- What a time interval is made from, and what it is converted to.
use common_core.Base.{ℕ, ◌+◌, ◌^◌, Option, none, some}
use common_core.Base.Text.{Text}
use common_core.Base.Int.{ℤ, pos, negsuc, scale, truncated}
use common_core.Base.Result.{Result, ok, raised}
use common_core.Intervals.Parsing
use common_core.Intervals.Parsing.{from_string}

-- A number of Python in decimal notation: coefficient / 10 ** decimals
pub record Number : Type 0 where
  pub coefficient : ℤ
  pub decimals : ℕ

-- The time of a number of seconds
abbrev pub seconds : Number → ℤ
seconds n = truncated (scale n.coefficient 1000000000) (10 ^ n.decimals)

-- input * 10 ** decimal_exponent
abbrev pub scaled : ℤ → Number → Number
scaled (pos e) n = record n { coefficient = scale n.coefficient (10 ^ e) }
scaled (negsuc e) n = record n { decimals = n.decimals + e + 1 }

-- `from_seconds`, `from_milliseconds`, `from_microseconds`, `from_nanoseconds`, of an integer
abbrev pub from_unit : ℕ → ℤ → ℤ
from_unit unit n = scale n unit

-- `to_seconds`, `to_milliseconds`, `to_microseconds`, `to_nanoseconds`
abbrev pub to_unit : ℕ → ℤ → ℤ
to_unit unit t = truncated t unit

pub data Failure : Type 0 where
  value_error type_error : Failure

-- A `timedelta` counts microseconds, a `Duration` message nanoseconds.
pub data Input : Type 0 where
  interval : ℤ → Input
  text : Text → Input
  number : Number → Input
  timedelta : ℤ → Input
  duration : ℤ → Input
  other : Input

-- `float` of a text is a parameter.
module _ (float : Text → Option Number) where
  abbrev parsed : Result Parsing.Failure ℤ → Result Failure ℤ
  parsed (ok t) = ok t
  parsed (raised e) = raised value_error

  abbrev from_text : ℤ → Text → Option Number → Result Failure ℤ
  unfolding from_string
  from_text e s (some n) = ok (seconds (scaled e n))
  from_text e s none = parsed (from_string s)

  -- `from_value(input, decimal_exponent)`
  unfoldable pub from_value : Input → ℤ → Result Failure ℤ
  unfolding from_text
  from_value (interval t) e = ok t
  from_value (text s) e = from_text e s (float s)
  from_value (number n) e = ok (seconds (scaled e n))
  from_value (timedelta n) e = ok (scale n 1000)
  from_value (duration n) e = ok n
  from_value _ e = raised type_error

  abbrev or_given : Input → Result Failure ℤ → Input
  or_given given (ok t) = interval t
  or_given given (raised e) = given

  abbrev fall_back : ℤ → Option Input → Option Input
  unfolding from_value
  fall_back e none = none
  fall_back e (some given) = some (or_given given (from_value given e))

  abbrev or_fallback : Option Input → Result Failure ℤ → Option Input
  or_fallback o (ok t) = some (interval t)
  or_fallback o (raised f) = o

  -- `try_from(input, fallback, decimal_exponent)`
  unfoldable pub try_from : Input → Option Input → ℤ → Option Input
  unfolding from_value fall_back
  try_from input fallback e = or_fallback (fall_back e fallback) (from_value input e)
