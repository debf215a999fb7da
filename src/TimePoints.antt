-- ===== src/TimePoints.antt =====
-- Points in time: `TimePoint` of src/core/python/core/timeutils/timepoint.py. A time point is a whole
-- number of nanoseconds since the epoch; what the code's floating-point arithmetic rounds is not
-- modelled.
pub mod Calendar
pub mod Days
pub mod Printing
pub mod Conversions
pub mod RoundTrip
