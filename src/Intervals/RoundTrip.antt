-- ===== src/Intervals/RoundTrip.antt =====
-- Printed intervals are read back.
use common_core.Base.Text.{Text}
use common_core.Base.{
  ℕ, suc, ◌+◌, ◌*◌, ◌/◌, ◌%◌, ◌≤◌, ◌<◌, ◌≡◌, ◌≢◌, refl, inl, inr, sym, ap, ◌∙◌, Bool, true, false,
  none, some, List, [], ◌∷◌, ◌++◌, nat_eq, ltb, arith, Bool-cases, if◌then◌else◌,
}
use common_core.Base.Int.{ℤ, pos, negsuc, neg_of}
use common_core.Base.Result.{ok}
use common_core.Base.Decimal.{read_digits, read_digits-digits}
use common_core.Intervals.{
  second, minute, hour, day, week, month, year, leap, microsecond, millisecond,
}
use common_core.Intervals.Printing.{magnitude, sign_of, to_string, to_iso8601_string}
use common_core.Intervals.Parsing.{
  Groups, match_duration, units, total, hits, leap_days, interval_of, from_string,
}
use common_core.Intervals.Groups.{captured}
use common_core.Intervals.Groups.Seconds.{amount-seconds_word}
use common_core.Intervals.Printed.{duration_text, join-parts_of}
use common_core.Intervals.Matched.{read_seconds, groups, time_groups, match_dates}

total-captured :
    (u n : ℕ) (us : List ℕ) (g : Groups) → total (u ∷ us) (captured n ∷ g) ≡ n * u + total us g
unfolding read_digits
total-captured u n us g = elim (Bool-cases (nat_eq n 0)) [
  | inl z ↦ let e : n ≡ 0 = ground arith in rw e (omega arith)
  | inr p ↦ rw (p, read_digits-digits n) (omega arith)
]

total-read_seconds :
    (s : ℕ) (us : List ℕ) (g : Groups) → total (second ∷ us) (read_seconds s ∷ g) ≡ s + total us g
total-read_seconds s us g = elim (Bool-cases (nat_eq s 0)) [
  | inl z ↦ let e : s ≡ 0 = ground arith in rw e (omega arith)
  | inr p ↦ rw (p, amount-seconds_word s) refl
]

total-hits : (us : List ℕ) (g : Groups) → total us g ≢ 0 → hits g ≡ true
total-hits [] g h = absurd (h refl)
total-hits (u ∷ us) [] h = absurd (h refl)
total-hits (u ∷ us) (none ∷ g) h = total-hits us g h
total-hits (u ∷ us) (some w ∷ g) h = refl

abbrev small_units : List ℕ
small_units = millisecond ∷ microsecond ∷ 1 ∷ []

abbrev clock_units : List ℕ
clock_units = hour ∷ minute ∷ second ∷ small_units

total-time_groups : (r : ℕ) → total clock_units (time_groups r) ≡ r
total-time_groups r =
    let m = r % hour / minute in
    let s = r % hour % minute in
    total-captured hour (r / hour) (minute ∷ second ∷ small_units)
      (captured m ∷ read_seconds s ∷ none ∷ none ∷ none ∷ [])
    ∙ ap (λ k. r / hour * hour + k)
        (total-captured minute m (second ∷ small_units) (read_seconds s ∷ none ∷ none ∷ none ∷ [])
          ∙ ap (λ k. m * minute + k) (total-read_seconds s small_units (none ∷ none ∷ none ∷ [])))
    ∙ parts
  where
    parts : r / hour * hour + (r % hour / minute * minute + (r % hour % minute + 0)) ≡ r
    parts = omega arith

total-groups : (n : ℕ) → total units (groups n) ≡ n
total-groups n =
    let d = n % year / day in
    let r = n % year % day in
    total-captured year (n / year) (month ∷ week ∷ day ∷ clock_units)
      (none ∷ none ∷ captured d ∷ time_groups r)
    ∙ ap (λ m. n / year * year + m)
        (total-captured day d clock_units (time_groups r)
          ∙ ap (λ m. d * day + m) (total-time_groups r))
    ∙ parts
  where
    parts : n / year * year + (n % year / day * day + n % year % day) ≡ n
    parts = omega arith

leap_days-groups : (n : ℕ) → n ≤ leap → leap_days (groups n) ≡ 0
leap_days-groups n h = elim (Bool-cases (nat_eq (n / year) 0)) [
  | inl z ↦ rw z refl
  | inr p ↦ rw (p, read_digits-digits (n / year)) (omega arith)
]

from_duration :
    (negative : Bool) (n : ℕ)
    → 0 < n
    → n ≤ leap
    → interval_of negative (match_duration (b'P' ∷ duration_text n))
      ≡ ok (if negative then neg_of n else pos n)
unfolding match_duration
from_duration negative n low high =
    let zero_after : n + 0 ≡ n = omega arith in
    let impossible : n ≢ 0 = λ z. omega (arith, z, low) in
    let some_value : total units (groups n) ≢ 0 = λ z. impossible (sym (total-groups n) ∙ z) in
    rw
      (
        match_dates n,
        total-hits units (groups n) some_value,
        total-groups n,
        leap_days-groups n high,
        zero_after,
      )
      refl

printed :
    (t : ℤ)
    → 0 < magnitude t
    → magnitude t ≤ leap
    → to_iso8601_string t ≡ sign_of [] t ++ b'P' ∷ duration_text (magnitude t)
unfolding to_iso8601_string to_string
printed t low high =
    let no_leap : ltb leap (magnitude t) ≡ false = ground arith in
    let some_time : magnitude t ≢ 0 = λ z. omega (arith, z, low) in
    rw (to_string, no_leap, join-parts_of (magnitude t) some_time) refl

signed : (t : Text) (negative : Bool) → Text
signed t negative = if negative then b'-' ∷ b'P' ∷ t else b'P' ∷ t

from_string-signed :
    (negative : Bool) (t : Text)
    → from_string (signed t negative) ≡ interval_of negative (match_duration (b'P' ∷ t))
unfolding from_string signed
from_string-signed true t = refl
from_string-signed false t = refl

pub neg_of_suc : (n : ℕ) → neg_of (n + 1) ≡ negsuc n
neg_of_suc n = let next : n + 1 ≡ suc n = omega arith in ap neg_of next

-- An interval of at most four years other than zero, printed as an ISO 8601 duration, is read back.
pub from_string-to_iso8601_string :
    (t : ℤ) → 0 < magnitude t → magnitude t ≤ leap → from_string (to_iso8601_string t) ≡ ok t
unfolding signed
from_string-to_iso8601_string (pos n) low high =
    let counted : nat_eq n 0 ≡ false = ground arith in
    ap from_string (printed (pos n) low high ∙ rw counted refl)
    ∙ from_string-signed false (duration_text n)
    ∙ from_duration false n low high
from_string-to_iso8601_string (negsuc n) low high =
    ap from_string (printed (negsuc n) low high)
    ∙ from_string-signed true (duration_text (n + 1))
    ∙ from_duration true (n + 1) low high
    ∙ ap ok (neg_of_suc n)
