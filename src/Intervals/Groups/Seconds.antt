-- ===== src/Intervals/Groups/Seconds.antt =====
-- The seconds of a printed interval, and what they are read as.
use common_core.Base.Text.{Text}
use common_core.Base.{
  ℕ, ◌+◌, ◌-◌, ◌*◌, ◌/◌, ◌%◌, ◌^◌, ◌<◌, ◌≡◌, refl, inl, inr, ap, ◌∙◌, true, false, some, [], ◌∷◌,
  ◌++◌, length, nat_eq, stops, take_while-append, drop_while-append, All, arith, Bool-cases,
}
use mathlib.Core.List.{append_assoc}
use mathlib.Core.Option
use common_core.Base.Decimal.{is_digit, digits, read_digits, read_onto, read_digits-digits}
use common_core.Intervals.{second}
use common_core.Intervals.Printing.{three_digits, fraction_digits, with_point, seconds_text}
use common_core.Intervals.Parsing.{
  Word, Suffix, take_suffix, suffixed, take_fraction, take_number, take_word, amount,
}
use common_core.Intervals.Groups.{take_number-digits, is_letter, Tight, Tight-digits}

abbrev AllDigits : Text → Type 0
AllDigits t = All (λ c. is_digit c ≡ true) t

fraction_digits-AllDigits : (n : ℕ) → n < second → AllDigits (fraction_digits n)
unfolding fraction_digits
fraction_digits-AllDigits n h = elim (Bool-cases (nat_eq (n % 1000) 0)) [
  | inr c ↦ rw c (
    ground arith,
    (
      ground arith,
      (
        ground arith,
        (
          ground arith,
          (ground arith, (ground arith, (ground arith, (ground arith, (ground arith, tt))))),
        ),
      ),
    ),
  )
  | inl c ↦ elim (Bool-cases (nat_eq (n / 1000 % 1000) 0)) [
    | inr b ↦
        rw (c, b)
          (
            ground arith,
            (ground arith, (ground arith, (ground arith, (ground arith, (ground arith, tt))))),
          )
    | inl b ↦ elim (Bool-cases (nat_eq (n / 1000000) 0)) [
      | inr a ↦ rw (c, b, a) (ground arith, (ground arith, (ground arith, tt)))
      | inl a ↦ rw (c, b, a) tt
    ]
  ]
]

read_onto-three_digits :
    (k n : ℕ) (cs : Text)
    → n < 1000
    → read_onto k (three_digits n ++ cs) ≡ read_onto (k * 1000 + n) cs
unfolding read_onto
read_onto-three_digits k n cs h = ap (λ m. read_onto m cs) (places k n h)
  where
    places :
        (k n : ℕ)
        → n < 1000
        → ((k * 10 + (48 + n / 100 - 48)) * 10 + (48 + n / 10 % 10 - 48)) * 10 + (48 + n % 10 - 48)
          ≡ k * 1000 + n
    places k n h = omega arith

read_onto-three_digits_end : (k n : ℕ) → n < 1000 → read_onto k (three_digits n) ≡ k * 1000 + n
unfolding read_onto
read_onto-three_digits_end k n h = read_onto-three_digits k n [] h

read_onto-first_three :
    (n : ℕ) (cs : Text) → n < 1000 → read_onto 0 (three_digits n ++ cs) ≡ read_onto n cs
read_onto-first_three n cs h =
    let e : 0 * 1000 + n ≡ n = omega arith in
    read_onto-three_digits 0 n cs h ∙ ap (λ m. read_onto m cs) e

-- Cut-off zeros do not count.
fraction_digits-value :
    (n : ℕ)
    → n < second
    → read_digits (fraction_digits n) * second / 10 ^ length (fraction_digits n) ≡ n
unfolding fraction_digits read_digits
fraction_digits-value n h =
    let a = n / 1000000 in
    let b = n / 1000 % 1000 in
    let c = n % 1000 in
    let first : (cs : Text) → read_onto 0 (three_digits a ++ cs) ≡ read_onto a cs =
      λ cs. read_onto-first_three a cs (omega arith) in
    let both : (cs : Text)
        → read_onto 0 (three_digits a ++ (three_digits b ++ cs)) ≡ read_onto (a * 1000 + b) cs =
      λ cs. first (three_digits b ++ cs) ∙ read_onto-three_digits a b cs (omega arith) in
    elim (Bool-cases (nat_eq c 0)) [
      | inr nc ↦
          let value : read_onto 0 (three_digits a ++ (three_digits b ++ three_digits c))
              ≡ (a * 1000 + b) * 1000 + c =
            both (three_digits c) ∙ read_onto-three_digits_end (a * 1000 + b) c (omega arith) in
          rw (fraction_digits, nc, value) (omega arith)
      | inl zc ↦ elim (Bool-cases (nat_eq b 0)) [
        | inr nb ↦
            let value : read_onto 0 (three_digits a ++ three_digits b) ≡ a * 1000 + b =
              first (three_digits b) ∙ read_onto-three_digits_end a b (omega arith) in
            rw (fraction_digits, zc, nb, value) (ground arith)
        | inl zb ↦ elim (Bool-cases (nat_eq a 0)) [
          | inr na ↦
              rw (fraction_digits, zc, zb, na, read_onto-three_digits_end 0 a (omega arith))
                (ground arith)
          | inl za ↦ rw (fraction_digits, zc, zb, za) (ground arith)
        ]
      ]
    ]

abbrev pub seconds_word : ℕ → Word
seconds_word n = record { whole = digits (n / second); fraction = fraction_digits (n % second) }

pub amount-seconds_word : (n : ℕ) → amount second (seconds_word n) ≡ n
amount-seconds_word n =
    rw (read_digits-digits (n / second), fraction_digits-value (n % second) (omega arith))
      (omega arith)

take_number-point :
    (n l : ℕ) (fraction t : Text)
    → AllDigits fraction
    → is_letter l ≡ true
    → take_number (digits n ++ (with_point fraction ++ l ∷ t))
      ≡ some (record { whole = digits n; fraction = fraction }, l ∷ t)
take_number-point n l [] t a h =
    let no_digit : stops is_digit (l ∷ t) ≡ true = ground arith in
    let no_point : nat_eq l b'.' ≡ false = ground arith in
    take_number-digits n (l ∷ t) no_digit ∙ rw no_point refl
take_number-point n l (c ∷ cs) t a h =
    let no_digit : stops is_digit (l ∷ t) ≡ true = ground arith in
    take_number-digits n (b'.' ∷ ((c ∷ cs) ++ l ∷ t)) refl
    ∙ rw
        (
          take_fraction,
          take_while-append is_digit (c ∷ cs) (l ∷ t) a no_digit,
          drop_while-append is_digit (c ∷ cs) (l ∷ t) a no_digit,
        )
        refl

-- The seconds with the character of their unit, for any group
pub take_word-seconds :
    (s : Suffix) (n l : ℕ) (t : Text)
    → is_letter l ≡ true
    → take_word s (seconds_text n ++ l ∷ t)
      ≡ Option.map (λ u. (seconds_word n, u)) (take_suffix s (l ∷ t))
unfolding take_word seconds_text
take_word-seconds s n l t h =
    let fraction = fraction_digits (n % second) in
    rw (append_assoc (digits (n / second)) (with_point fraction) (l ∷ t)) (
      ap (suffixed s) (
        take_number-point (n / second) l fraction t
          (fraction_digits-AllDigits (n % second) (omega arith)) h))

pub seconds-Tight : (n : ℕ) (t : Text) → Tight (seconds_text n ++ t)
unfolding seconds_text
seconds-Tight n t =
    rw (append_assoc (digits (n / second)) (with_point (fraction_digits (n % second))) t)
      (Tight-digits (n / second) (with_point (fraction_digits (n % second)) ++ t))
