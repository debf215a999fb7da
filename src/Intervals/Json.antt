-- ===== src/Intervals/Json.antt =====
-- Intervals printed for JSON are read back.
use common_core.Base.Text.{Text, begins}
use common_core.Base.{
  ℕ, nat_eq_iff, ◌+◌, ◌/◌, ◌%◌, ◌≤◌, ◌≡◌, ◌≢◌, refl, inl, inr, sym, ap, ◌∙◌, Bool, true, false,
  none, some, [], ◌∷◌, ◌++◌, nat_eq, ltb, arith, All, Bool-cases, if◌then◌else◌,
}
use mathlib.Core.List.{append_assoc}
use mathlib.Core.Bool.{false≢true}
use common_core.Base.Int.{ℤ, pos, negsuc, neg_of}
use common_core.Base.Result.{ok}
use common_core.Base.Decimal.{digits, is_digit, digits-AllDigits, digits-ne-nil}
use common_core.Intervals.{second, leap}
use common_core.Intervals.Printing.{
  fraction_digits, with_point, components, seconds_text, magnitude, sign_of, parts_of, to_string,
}
use common_core.Intervals.Parsing.{
  either, match_groups, match_end, time_suffixes, match_time, match_duration, interval_of,
  from_string,
}
use common_core.Intervals.Groups.{taken, passed}
use common_core.Intervals.Groups.Seconds.{
  seconds_word, amount-seconds_word, take_word-seconds, seconds-Tight,
}
use common_core.Intervals.Printing.{json_format, to_json_string}
use common_core.Intervals.RoundTrip.{neg_of_suc}
use common_core.Intervals.Matched.{nones, match_groups-nil, below_seconds}

-- A text that begins with a digit
begins-digits : (c n : ℕ) (t : Text) → is_digit c ≡ false → begins c (digits n ++ t) ≡ false
begins-digits c n t h = starts (digits n) (digits-AllDigits n) (digits-ne-nil n)
  where
    starts : (cs : Text) → All (λ d. is_digit d ≡ true) cs → cs ≢ [] → begins c (cs ++ t) ≡ false
    starts [] a h = absurd (h refl)
    starts (d ∷ cs) a ne = elim (Bool-cases (nat_eq d c)) [
      | inl e ↦ absurd (false≢true (sym h ∙ ap is_digit (sym ((nat_eq_iff d c).0 e)) ∙ a.0))
      | inr e ↦ e
    ]

begins-seconds : (c n : ℕ) (t : Text) → is_digit c ≡ false → begins c (seconds_text n ++ t) ≡ false
unfolding seconds_text
begins-seconds c n t h =
    rw (append_assoc (digits (n / second)) (with_point (fraction_digits (n % second))) t)
      (begins-digits c (n / second) (with_point (fraction_digits (n % second)) ++ t) h)

abbrev seconds_only : ℕ → Text
seconds_only n = seconds_text n ++ b's' ∷ []

match_seconds_only :
    (n : ℕ)
    → match_groups time_suffixes match_end (seconds_only n)
      ≡ some (none ∷ none ∷ some (seconds_word n) ∷ nones below_seconds)
match_seconds_only n =
    let tight = seconds-Tight n (b's' ∷ []) in
    let seconds =
      taken (either b's' b'S') below_seconds match_end (seconds_only n) [] (seconds_word n)
        (nones below_seconds) tight (take_word-seconds (either b's' b'S') n b's' [] refl)
        (match_groups-nil below_seconds) in
    let minutes =
      passed (either b'm' b'M') (either b's' b'S' ∷ below_seconds) match_end (seconds_only n) _
        tight (take_word-seconds (either b'm' b'M') n b's' [] refl) seconds in
    passed (either b'h' b'H') _ match_end (seconds_only n) _ tight
      (take_word-seconds (either b'h' b'H') n b's' [] refl) minutes

match_duration-seconds_only :
    (n : ℕ)
    → match_duration (seconds_only n)
      ≡ some (none ∷ none ∷ none ∷ none ∷ none ∷ none ∷ some (seconds_word n) ∷ nones below_seconds)
unfolding match_duration match_time
match_duration-seconds_only n =
    rw
      (
        begins-seconds b'P' n (b's' ∷ []) refl,
        match_time,
        seconds-Tight n (b's' ∷ []),
        begins-seconds b'T' n (b's' ∷ []) refl,
        match_seconds_only n,
      )
      refl

interval_of-seconds_only :
    (negative : Bool) (n : ℕ)
    → interval_of negative (match_duration (seconds_only n))
      ≡ ok (if negative then neg_of n else pos n)
interval_of-seconds_only negative n =
    let value : n + 0 + 0 ≡ n = omega arith in
    rw (match_duration-seconds_only n, amount-seconds_word n, value) refl

parts_of-json : (n : ℕ) → parts_of json_format n ≡ seconds_only n ∷ []
unfolding parts_of components
parts_of-json n = elim (Bool-cases (nat_eq n 0)) [
  | inl z ↦ rw (parts_of, z) refl
  | inr p ↦ rw (parts_of, p) refl
]

printed :
    (t : ℤ) → magnitude t ≤ leap → to_json_string t ≡ sign_of [] t ++ seconds_only (magnitude t)
unfolding to_json_string to_string
printed t high =
    let no_leap : ltb leap (magnitude t) ≡ false = ground arith in
    rw (to_string, no_leap, parts_of-json (magnitude t)) refl

no_sign : (n : ℕ) → sign_of [] (pos n) ≡ []
no_sign n = elim (Bool-cases (nat_eq n 0)) [ inl z ↦ rw z refl | inr p ↦ rw p refl ]

from_string-seconds_only : (n : ℕ) → from_string (seconds_only n) ≡ ok (pos n)
unfolding from_string
from_string-seconds_only n =
    rw (from_string, begins-seconds b'+' n (b's' ∷ []) refl, begins-seconds b'-' n (b's' ∷ []) refl)
      (interval_of-seconds_only false n)

from_string-minus_seconds : (n : ℕ) → from_string (b'-' ∷ seconds_only n) ≡ ok (neg_of n)
unfolding from_string
from_string-minus_seconds n = interval_of-seconds_only true n

-- An interval of at most four years, printed for JSON, is read back.
from_string-to_json_string : (t : ℤ) → magnitude t ≤ leap → from_string (to_json_string t) ≡ ok t
from_string-to_json_string (pos n) high =
    ap from_string (printed (pos n) high ∙ ap (λ s. s ++ seconds_only n) (no_sign n))
    ∙ from_string-seconds_only n
from_string-to_json_string (negsuc n) high =
    ap from_string (printed (negsuc n) high)
    ∙ from_string-minus_seconds (n + 1)
    ∙ ap ok (neg_of_suc n)
