-- ===== src/Intervals.antt =====
-- Time intervals: `TimeInterval` of src/core/python/core/timeutils/timeinterval.py. An interval is a
-- whole number of nanoseconds, the smallest time that `to_string` prints; what the code's
-- floating-point arithmetic rounds is not modelled. Texts are lists of ASCII codes.
pub mod Printing
pub mod Parsing
pub mod Conversions
pub mod Groups
pub mod Printed
pub mod Matched
pub mod RoundTrip
pub mod Json
use common_core.Base.{ℕ, List}

-- The units of time, in nanoseconds
abbrev pub microsecond : ℕ
microsecond = 1000

abbrev pub millisecond : ℕ
millisecond = 1000000

abbrev pub second : ℕ
second = 1000000000

abbrev pub minute : ℕ
minute = 60000000000

abbrev pub hour : ℕ
hour = 3600000000000

abbrev pub day : ℕ
day = 86400000000000

abbrev pub week : ℕ
week = 604800000000000

abbrev pub month : ℕ
month = 2592000000000000

abbrev pub year : ℕ
year = 31536000000000000

abbrev pub leap : ℕ
leap = 126144000000000000

-- The number that the code's LEAP is, in seconds
abbrev pub leap_number : ℕ
leap_number = 126144000
