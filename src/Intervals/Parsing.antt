-- ===== src/Intervals/Parsing.antt =====
-- `from_string` of src/core/python/core/timeutils/timeinterval.py.
use common_core.Base.Text.{Text, begins, is_space, rest_of}
use common_core.Base.{
  ℕ, ◌+◌, ◌*◌, ◌/◌, ◌^◌, Bool, true, false, ◌||◌, Option, none, some, List, [], ◌∷◌, length, nat_eq,
  take_while, drop_while, if◌then◌else◌,
}
use mathlib.Core.Option
use common_core.Base.Int.{ℤ, pos, neg_of}
use common_core.Base.Result.{Result, ok, raised}
use common_core.Base.Decimal.{is_digit, read_digits}
use common_core.Intervals.{
  microsecond, millisecond, second, minute, hour, day, week, month, year, leap_number,
}

-- A word `\d+(?:\.\d*)?`: the digits before and after its point
pub record Word : Type 0 where
  pub whole : Text
  pub fraction : Text

unfoldable pub skip_spaces : Text → Text
skip_spaces t = drop_while is_space t

abbrev pub take_fraction : Text → Text → Word × Text
take_fraction whole [] = (record { whole = whole; fraction = [] }, [])
take_fraction whole (c ∷ cs) =
    if nat_eq c b'.'
    then (record { whole = whole; fraction = take_while is_digit cs }, drop_while is_digit cs)
    else (record { whole = whole; fraction = [] }, c ∷ cs)

abbrev pub with_whole : Text → Text → Option (Word × Text)
with_whole [] rest = none
with_whole (c ∷ cs) rest = some (take_fraction (c ∷ cs) rest)

unfoldable pub take_number : Text → Option (Word × Text)
take_number t = with_whole (take_while is_digit t) (drop_while is_digit t)

-- The suffix of a unit: a character of two, or a character and an `s`
pub data Suffix : Type 0 where
  either : ℕ → ℕ → Suffix
  then_s : ℕ → Suffix

abbrev pub take_suffix : Suffix → Text → Option Text
take_suffix s [] = none
take_suffix (either a b) (c ∷ cs) = if nat_eq c a || nat_eq c b then some cs else none
take_suffix (then_s a) (c ∷ cs) =
    if nat_eq c a then if begins b's' cs then some (rest_of cs) else none else none

abbrev pub suffixed : Suffix → Option (Word × Text) → Option (Word × Text)
suffixed s none = none
suffixed s (some (w, t)) = Option.map (λ u. (w, u)) (take_suffix s t)

-- A word with the suffix of a unit
unfoldable pub take_word : Suffix → Text → Option (Word × Text)
unfolding take_number
take_word s t = suffixed s (take_number t)

abbrev pub Groups : Type 0
Groups = List (Option Word)

abbrev pub or_else : Option Groups → Option Groups → Option Groups
or_else none o = o
or_else (some g) o = some g

abbrev pub capture : Option Word → Option Groups → Option Groups
capture w o = Option.map (λ g. w ∷ g) o

-- The optional groups of some units, each after white space, and what the rest of the pattern
-- matches: a group that lets the rest fail is left out.
unfoldable pub match_groups : List Suffix → (Text → Option Groups) → Text → Option Groups
unfolding skip_spaces
match_groups [] rest t = rest t
match_groups (s ∷ more) rest t =
    let u = skip_spaces t in
    let without = capture none (match_groups more rest u) in
    elim (take_word s u) [
      | none ↦ without
      | some (w, v) ↦ or_else (capture (some w) (match_groups more rest v)) without
    ]

-- `$`, also before a line end that ends the text
unfoldable pub match_end : Text → Option Groups
match_end [] = some []
match_end (c ∷ []) = if nat_eq c 10 then some [] else none
match_end (c ∷ d ∷ t) = none

abbrev pub date_suffixes : List Suffix
date_suffixes = either b'y' b'Y' ∷ either b'm' b'M' ∷ either b'w' b'W' ∷ either b'd' b'D' ∷ []

abbrev pub time_suffixes : List Suffix
time_suffixes =
    either b'h' b'H'
    ∷ either b'm' b'M'
    ∷ either b's' b'S'
    ∷ then_s b'm'
    ∷ then_s b'u'
    ∷ then_s b'n'
    ∷ []

abbrev pub skip_mark : Text → Text
skip_mark t = if begins b'T' t then rest_of t else t

unfoldable pub match_time : Text → Option Groups
unfolding match_groups match_end skip_spaces
match_time t = match_groups time_suffixes match_end (skip_mark (skip_spaces t))

-- The groups of `_rx_duration` after the sign
unfoldable pub match_duration : Text → Option Groups
unfolding match_groups match_time
match_duration t =
    if begins b'P' t
    then match_groups date_suffixes match_time (rest_of t)
    else Option.map (λ g. none ∷ none ∷ none ∷ none ∷ g) (match_time t)

-- `_unit_map`, in the order of the groups
abbrev pub units : List ℕ
units = year ∷ month ∷ week ∷ day ∷ hour ∷ minute ∷ second ∷ millisecond ∷ microsecond ∷ 1 ∷ []

-- unit_factor * float(word)
abbrev pub amount : ℕ → Word → ℕ
amount unit w = read_digits w.whole * unit + read_digits w.fraction * unit / 10 ^ length w.fraction

abbrev pub total : List ℕ → Groups → ℕ
total [] g = 0
total (u ∷ us) [] = 0
total (u ∷ us) (none ∷ g) = total us g
total (u ∷ us) (some w ∷ g) = amount u w + total us g

abbrev pub hits : Groups → Bool
hits [] = false
hits (none ∷ g) = hits g
hits (some w ∷ g) = true

-- DAY * (float(years) // LEAP)
abbrev pub leap_days : Groups → ℕ
leap_days [] = 0
leap_days (none ∷ g) = 0
leap_days (some w ∷ g) = day * (read_digits w.whole / leap_number)

-- The exception ValueError
pub data Failure : Type 0 where
  value_error : Failure

abbrev pub interval_of : Bool → Option Groups → Result Failure ℤ
interval_of negative none = raised value_error
interval_of negative (some g) =
    let interval = total units g + leap_days g in
    if hits g then ok (if negative then neg_of interval else pos interval) else raised value_error

-- `from_string(input)`
unfoldable pub from_string : Text → Result Failure ℤ
unfolding match_duration
from_string t =
    let unsigned = if begins b'+' t || begins b'-' t then rest_of t else t in
    interval_of (begins b'-' t) (match_duration unsigned)
