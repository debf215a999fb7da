-- ===== src/Intervals/Printed.antt =====
-- What `to_iso8601_string` prints.
use native.Mathlib.Nat.{div-eq_of_lt, mod-eq_of_lt, le-div_iff_mul-le}
use mathlib.Core.List.{append-nil, append_assoc}
use mathlib.Core.Bool.{false≢true}
use common_core.Base.Text.{Text}
use common_core.Base.{
  ℕ, ◌/◌, ◌%◌, ◌<◌, ◌≡◌, ◌≢◌, refl, inl, inr, sym, ap, ◌∙◌, true, false, not, ◌&&◌, ◌||◌, List, [],
  ◌∷◌, ◌++◌, nat_eq, leb, arith, Bool-cases, if◌then◌else◌,
}
use mathlib.Core.Path.{ap₂}
use common_core.Base.Decimal.{digits}
use common_core.Intervals.{minute, hour, day, week, month, year}
use common_core.Intervals.Printing.{
  is_empty, no_parts, components, seconds_text, join, one_if, parts_of, iso8601_format,
}
use common_core.Intervals.Groups.{component}

join-append : (xs ys : List Text) → join [] (xs ++ ys) ≡ join [] xs ++ join [] ys
join-append [] ys = refl
join-append (x ∷ []) [] = sym (append-nil x)
join-append (x ∷ []) (y ∷ ys) = refl
join-append (x ∷ z ∷ xs) ys =
    ap (λ t. x ++ t) (join-append (z ∷ xs) ys)
    ∙ sym (append_assoc x (join [] (z ∷ xs)) (join [] ys))

join-cons : (x : Text) (xs : List Text) → join [] (x ∷ xs) ≡ x ++ join [] xs
join-cons x xs = join-append (x ∷ []) xs

-- One component of the loop, printed
join-components :
    (l u r : ℕ) (more : List (Text × ℕ))
    → 0 < u
    → let (parts, after) = components ((l ∷ [], u) ∷ more) r in
      let (parts', after') = components more (r % u) in
      (join [] parts ≡ component l (r / u) ++ join [] parts') × (after ≡ after')
unfolding components
join-components l u r more h = elim (Bool-cases (leb u r)) [
  | inl t ↦
      let counted : nat_eq (r / u) 0 ≡ false =
        ground (arith, (le-div_iff_mul-le {k = u} {x = 1} {y = r} h).1 (ground arith)) in
      rw (t, counted) (join-cons (digits (r / u) ++ l ∷ []) (components more (r % u)).0, refl)
  | inr f ↦
      let small : r < u = ground arith in
      let none_counted : r / u ≡ 0 = div-eq_of_lt small in
      let same : r % u ≡ r = mod-eq_of_lt small in rw (f, none_counted, same) (refl, refl)
]

no_parts-components :
    (l : List (Text × ℕ)) (r : ℕ) → no_parts (components l r).0 ≡ true → (components l r).1 ≡ r
unfolding components
no_parts-components [] r h = refl
no_parts-components ((suffix, u) ∷ more) r h =
    elim (Bool-cases (not (is_empty suffix) && leb u r)) [
      | inl t ↦ absurd (false≢true (rw t at h))
      | inr f ↦ rw f (no_parts-components more r (rw f at h))
    ]

no_parts-append : (xs ys : List Text) → no_parts xs ≡ false → no_parts (xs ++ ys) ≡ false
no_parts-append [] ys h = cc
no_parts-append (x ∷ xs) ys h = refl

no_parts-marked : (xs ys : List Text) (t : Text) → no_parts (xs ++ t ∷ ys) ≡ false
no_parts-marked [] ys t = refl
no_parts-marked (x ∷ xs) ys t = refl

mark : Text
mark = b'T' ∷ []

-- How the dates, the mark and the times of a text are put together
together :
    (dates times : List Text) (r s : ℕ) (seconds : Text)
    → (r ≡ 0 → (no_parts dates ≡ false) × (times ≡ []) × (s ≡ 0))
    → let above = dates ++ (one_if (not (nat_eq r 0) || no_parts dates) mark ++ times) in
      join [] (above ++ one_if (not (nat_eq s 0) || no_parts above) seconds)
      ≡ join [] dates
        ++ (if nat_eq r 0
            then []
            else b'T' ∷ (join [] times ++ (if nat_eq s 0 then [] else seconds)))
unfolding mark
together dates times r s seconds h = elim (Bool-cases (nat_eq r 0)) [
  | inl z ↦
      let (some_dates, no_times, no_seconds) = h (ground arith) in
      rw (z, some_dates, no_times, no_seconds, append-nil dates, some_dates, append-nil dates)
        (sym (append-nil (join [] dates)))
  | inr n ↦
      let above : join [] (dates ++ mark ∷ times) ≡ join [] dates ++ b'T' ∷ join [] times =
        join-append dates (mark ∷ times) ∙ ap (λ t. join [] dates ++ t) (join-cons mark times) in
      elim (Bool-cases (nat_eq s 0)) [
        | inl z ↦
            rw
              (
                n,
                z,
                no_parts-marked dates times mark,
                append-nil (dates ++ mark ∷ times),
                append-nil (join [] times),
              )
              above
        | inr m ↦
            rw (n, m)
              (join-append (dates ++ mark ∷ times) (seconds ∷ [])
                ∙ ap (λ t. t ++ seconds) above
                ∙ append_assoc (join [] dates) (b'T' ∷ join [] times) seconds)
      ]
]

abbrev dates_of : ℕ → List Text × ℕ
dates_of n = components ((b'Y' ∷ [], year) ∷ ([], month) ∷ ([], week) ∷ (b'D' ∷ [], day) ∷ []) n

abbrev times_of : ℕ → List Text × ℕ
times_of n = components ((b'H' ∷ [], hour) ∷ (b'M' ∷ [], minute) ∷ []) n

join-dates_of :
    (n : ℕ)
    → (join [] (dates_of n).0 ≡ component b'Y' (n / year) ++ component b'D' (n % year / day))
      × ((dates_of n).1 ≡ n % year % day)
unfolding components
join-dates_of n =
    let years =
      join-components b'Y' year n (([], month) ∷ ([], week) ∷ (b'D' ∷ [], day) ∷ [])
        (omega arith) in
    let days = join-components b'D' day (n % year) [] (omega arith) in
    (
      years.0
          ∙ ap (λ t. component b'Y' (n / year) ++ t)
              (days.0 ∙ append-nil (component b'D' (n % year / day))),
      years.1 ∙ days.1,
    )

join-times_of :
    (n : ℕ)
    → (join [] (times_of n).0 ≡ component b'H' (n / hour) ++ component b'M' (n % hour / minute))
      × ((times_of n).1 ≡ n % hour % minute)
unfolding components
join-times_of n =
    let hours = join-components b'H' hour n ((b'M' ∷ [], minute) ∷ []) (omega arith) in
    let minutes = join-components b'M' minute (n % hour) [] (omega arith) in
    (
      hours.0
          ∙ ap (λ t. component b'H' (n / hour) ++ t)
              (minutes.0 ∙ append-nil (component b'M' (n % hour / minute))),
      hours.1 ∙ minutes.1,
    )

times_of-zero : (n : ℕ) → n ≡ 0 → ((times_of n).0 ≡ []) × ((times_of n).1 ≡ 0)
unfolding components
times_of-zero n h = rw h (refl, refl)

abbrev pub seconds_part : ℕ → Text
seconds_part s = if nat_eq s 0 then [] else seconds_text s ++ b'S' ∷ []

-- The time, after its mark
abbrev pub time_text : ℕ → Text
time_text r =
    component b'H' (r / hour)
    ++ (component b'M' (r % hour / minute) ++ seconds_part (r % hour % minute))

abbrev pub time_part : ℕ → Text
time_part r = if nat_eq r 0 then [] else b'T' ∷ time_text r

abbrev pub duration_text : ℕ → Text
duration_text n =
    component b'Y' (n / year) ++ (component b'D' (n % year / day) ++ time_part (n % year % day))

timed :
    (r : ℕ)
    → (if nat_eq r 0 then [] else b'T' ∷ (join [] (times_of r).0 ++ seconds_part (times_of r).1))
      ≡ time_part r
timed r =
    let (parts, after) = join-times_of r in
    ap (λ t. if nat_eq r 0 then [] else b'T' ∷ t)
      (ap₂ (λ t s. t ++ seconds_part s) parts after
        ∙ append_assoc (component b'H' (r / hour)) (component b'M' (r % hour / minute))
            (seconds_part (r % hour % minute)))

-- Where nothing remains after the dates, there are dates, and no times
nothing_remains :
    (n : ℕ)
    → n ≢ 0
    → (dates_of n).1 ≡ 0
    → (no_parts (dates_of n).0 ≡ false)
      × ((times_of (dates_of n).1).0 ≡ [])
      × ((times_of (dates_of n).1).1 ≡ 0)
nothing_remains n h z =
    let times = times_of-zero (dates_of n).1 z in
    (
      elim (Bool-cases (no_parts (dates_of n).0)) [
        | inl none ↦ absurd (h (sym (no_parts-components _ n none) ∙ z))
        | inr some ↦ some
      ],
      times.0,
      times.1,
    )

pub join-parts_of : (n : ℕ) → n ≢ 0 → join [] (parts_of iso8601_format n) ≡ duration_text n
unfolding parts_of mark
join-parts_of n h =
    let r = (dates_of n).1 in
    let s = (times_of r).1 in
    let (parts, after) = join-dates_of n in
    together (dates_of n).0 (times_of r).0 r s (seconds_text s ++ b'S' ∷ []) (nothing_remains n h)
    ∙ ap₂ (λ x y. x ++ y) parts (timed r ∙ ap (λ r. time_part r) after)
    ∙ append_assoc (component b'Y' (n / year)) (component b'D' (n % year / day))
        (time_part (n % year % day))
