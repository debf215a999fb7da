-- ===== src/Tests/Intervals.antt =====
-- Time intervals.
use common_core.Base.{◌≡◌, refl, [], ◌∷◌, take_while, drop_while, arith}
use common_core.Base.Int.{pos, negsuc}
use common_core.Base.Result.{ok, raised}
use common_core.Intervals.Printing.{to_iso8601_string, components}
use common_core.Intervals.Parsing.{take_number, take_word, from_string, value_error}
use common_core.Intervals.RoundTrip.{from_string-to_iso8601_string}

-- A day, two hours, and three and a half seconds ago
from_string-to_iso8601_string_example :
    from_string (to_iso8601_string (negsuc 93603499999999)) ≡ ok (negsuc 93603499999999)
from_string-to_iso8601_string_example =
    from_string-to_iso8601_string (negsuc 93603499999999) (omega arith) (omega arith)

-- No time is printed as PT, which is not read.
zero_run : to_iso8601_string (pos 0) ≡ b'P' ∷ b'T' ∷ []
unfolding to_iso8601_string components
zero_run = refl

zero_read : from_string (b'P' ∷ b'T' ∷ []) ≡ raised value_error
unfolding from_string take_number take_word take_while drop_while
zero_read = refl
