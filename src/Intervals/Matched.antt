-- ===== src/Intervals/Matched.antt =====
-- What the pattern of `from_string` captures of a printed duration.
use common_core.Base.{
  ℕ, drop_while, ◌/◌, ◌%◌, ◌≡◌, refl, inl, inr, ◌∙◌, Option, none, some, List, [], ◌∷◌, ◌++◌,
  nat_eq, arith, Bool-cases, if◌then◌else◌,
}
use common_core.Intervals.{minute, hour, day, year}
use common_core.Intervals.Printing.{seconds_text}
use common_core.Intervals.Parsing.{
  Word, skip_spaces, Suffix, either, then_s, take_suffix, take_word, Groups, match_groups,
  match_end, date_suffixes, time_suffixes, match_time,
}
use common_core.Intervals.Groups.{
  Tight, taken, passed, component, captured, component-Tight, component-no_word, component-captured,
}
use common_core.Intervals.Groups.{take_number-none}
use common_core.Intervals.Printed.{seconds_part, time_text, time_part, duration_text}
use common_core.Intervals.Groups.Seconds.{seconds_word, take_word-seconds, seconds-Tight}

abbrev pub read_seconds : ℕ → Option Word
read_seconds s = if nat_eq s 0 then none else some (seconds_word s)

Tight-nil : Tight []
unfolding skip_spaces drop_while
Tight-nil = refl

seconds_part-Tight : (s : ℕ) → Tight (seconds_part s)
seconds_part-Tight s = elim (Bool-cases (nat_eq s 0)) [
  | inl z ↦ rw z Tight-nil
  | inr p ↦ rw p (seconds-Tight s (b'S' ∷ []))
]

take_word-nil : (u : Suffix) → take_word u [] ≡ none
unfolding take_word
take_word-nil u = rw (take_word, take_number-none [] refl) refl

seconds_part-no_word :
    (u : Suffix) (s : ℕ) → take_suffix u (b'S' ∷ []) ≡ none → take_word u (seconds_part s) ≡ none
seconds_part-no_word u s h = elim (Bool-cases (nat_eq s 0)) [
  | inl z ↦ rw z (take_word-nil u)
  | inr p ↦ rw p (take_word-seconds u s b'S' [] refl ∙ rw h refl)
]

abbrev pub nones : List Suffix → Groups
nones [] = []
nones (s ∷ more) = none ∷ nones more

-- Nothing is captured at the end.
pub match_groups-nil : (l : List Suffix) → match_groups l match_end [] ≡ some (nones l)
unfolding match_groups match_end
match_groups-nil [] = refl
match_groups-nil (s ∷ more) =
    passed s more match_end [] (nones more) Tight-nil (take_word-nil s) (match_groups-nil more)

abbrev pub below_seconds : List Suffix
below_seconds = then_s b'm' ∷ then_s b'u' ∷ then_s b'n' ∷ []

match_seconds :
    (s : ℕ)
    → match_groups (either b's' b'S' ∷ below_seconds) match_end (seconds_part s)
      ≡ some (read_seconds s ∷ nones below_seconds)
match_seconds s = elim (Bool-cases (nat_eq s 0)) [
  | inl z ↦ rw z (match_groups-nil (either b's' b'S' ∷ below_seconds))
  | inr p ↦ rw p (
      taken (either b's' b'S') below_seconds match_end (seconds_text s ++ b'S' ∷ []) []
        (seconds_word s) (nones below_seconds) (seconds-Tight s (b'S' ∷ []))
        (take_word-seconds (either b's' b'S') s b'S' [] refl) (match_groups-nil below_seconds))
]

abbrev pub time_groups : ℕ → Groups
time_groups r =
    captured (r / hour)
    ∷ captured (r % hour / minute)
    ∷ read_seconds (r % hour % minute)
    ∷ none
    ∷ none
    ∷ none
    ∷ []

match_hours : (r : ℕ) → match_groups time_suffixes match_end (time_text r) ≡ some (time_groups r)
match_hours r =
    let m = r % hour / minute in
    let s = r % hour % minute in
    component-captured (either b'h' b'H') b'H' (r / hour) (component b'M' m ++ seconds_part s) _
      match_end _ refl refl
      (component-no_word (either b'h' b'H') b'M' m (seconds_part s) refl refl
        (seconds_part-no_word (either b'h' b'H') s refl))
      (component-Tight b'M' m (seconds_part s) (seconds_part-Tight s))
      (component-captured (either b'm' b'M') b'M' m (seconds_part s) _ match_end _ refl refl
        (seconds_part-no_word (either b'm' b'M') s refl) (seconds_part-Tight s) (match_seconds s))

match_time-time_part : (r : ℕ) → match_time (time_part r) ≡ some (time_groups r)
unfolding match_time skip_spaces drop_while
match_time-time_part r = elim (Bool-cases (nat_eq r 0)) [
  | inl z ↦ let e : r ≡ 0 = ground arith in rw e (match_groups-nil time_suffixes)
  | inr p ↦ rw p (match_hours r)
]

time_part-Tight : (r : ℕ) → Tight (time_part r)
unfolding skip_spaces drop_while
time_part-Tight r = elim (Bool-cases (nat_eq r 0)) [ inl z ↦ rw z refl | inr p ↦ rw p refl ]

time_part-no_word : (u : Suffix) (r : ℕ) → take_word u (time_part r) ≡ none
unfolding take_word
time_part-no_word u r = elim (Bool-cases (nat_eq r 0)) [
  | inl z ↦ rw z (take_word-nil u)
  | inr p ↦ rw (p, take_number-none (b'T' ∷ time_text r) refl) refl
]

abbrev pub groups : ℕ → Groups
groups n =
    captured (n / year) ∷ none ∷ none ∷ captured (n % year / day) ∷ time_groups (n % year % day)

match_groups_ends : (r : ℕ) → match_groups [] match_time (time_part r) ≡ some (time_groups r)
unfolding match_groups
match_groups_ends r = match_time-time_part r

pub match_dates :
    (n : ℕ) → match_groups date_suffixes match_time (duration_text n) ≡ some (groups n)
match_dates n =
    let d = n % year / day in
    let r = n % year % day in
    let t = component b'D' d ++ time_part r in
    let tight = component-Tight b'D' d (time_part r) (time_part-Tight r) in
    let days =
      component-captured (either b'd' b'D') b'D' d (time_part r) [] match_time (time_groups r) refl
        refl (time_part-no_word (either b'd' b'D') r) (time_part-Tight r) (match_groups_ends r) in
    let weeks =
      passed (either b'w' b'W') _ match_time t _ tight (no_days (either b'w' b'W') d r refl) days in
    let months =
      passed (either b'm' b'M') _ match_time t _ tight (no_days (either b'm' b'M') d r refl)
        weeks in
    component-captured (either b'y' b'Y') b'Y' (n / year) t _ match_time _ refl refl
      (no_days (either b'y' b'Y') d r refl) tight months
  where
    no_days :
        (u : Suffix) (d r : ℕ)
        → take_suffix u (b'D' ∷ time_part r) ≡ none
        → take_word u (component b'D' d ++ time_part r) ≡ none
    no_days u d r h = component-no_word u b'D' d (time_part r) refl h (time_part-no_word u r)
