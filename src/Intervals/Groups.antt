-- ===== src/Intervals/Groups.antt =====
-- How the groups of the pattern match printed components.
pub mod Seconds
use common_core.Base.Text.{Text, begins, is_space}
use common_core.Base.{
  ℕ, ◌≡◌, ◌≢◌, refl, inl, inr, sym, ap, ◌∙◌, Bool, true, false, Option, none, some, List, [], ◌∷◌,
  ◌++◌, nat_eq, stops, take_while, drop_while, take_while-append, drop_while-append, All, arith,
  Bool-cases, leb, if◌then◌else◌,
}
use mathlib.Core.List.{append_assoc}
use mathlib.Core.Option
use mathlib.Core.Bool.{false≢true}
use common_core.Base.Decimal.{is_digit, digits, digits-AllDigits, digits-ne-nil}
use common_core.Intervals.Parsing.{
  Word, skip_spaces, take_fraction, with_whole, take_number, Suffix, take_suffix, suffixed,
  take_word, Groups, or_else, capture, match_groups,
}

with_whole-ne_nil :
    (whole rest : Text) → whole ≢ [] → with_whole whole rest ≡ some (take_fraction whole rest)
with_whole-ne_nil [] rest h = absurd (h refl)
with_whole-ne_nil (c ∷ cs) rest h = refl

-- The digits of a number before anything that is no digit
pub take_number-digits :
    (n : ℕ) (t : Text)
    → stops is_digit t ≡ true
    → take_number (digits n ++ t) ≡ some (take_fraction (digits n) t)
unfolding take_number
take_number-digits n t h =
    rw
      (
        take_number,
        take_while-append is_digit (digits n) t (digits-AllDigits n) h,
        drop_while-append is_digit (digits n) t (digits-AllDigits n) h,
      )
      (with_whole-ne_nil (digits n) t (digits-ne-nil n))

pub take_number-none : (t : Text) → stops is_digit t ≡ true → take_number t ≡ none
unfolding take_number take_while drop_while
take_number-none [] h = refl
take_number-none (c ∷ cs) h = elim (Bool-cases (is_digit c)) [
  | inl d ↦ absurd (false≢true (rw d at h))
  | inr d ↦ rw (take_number, d) refl
]

-- A text that begins with no white space
abbrev pub Tight : Text → Type 0
Tight t = skip_spaces t ≡ t

pub taken :
    (s : Suffix) (more : List Suffix) (rest : Text → Option Groups) (t v : Text) (w : Word)
    (g : Groups)
    → Tight t
    → take_word s t ≡ some (w, v)
    → match_groups more rest v ≡ some g
    → match_groups (s ∷ more) rest t ≡ some (some w ∷ g)
unfolding match_groups
taken s more rest t v w g tight word h = rw (match_groups, tight, word, h) refl

pub passed :
    (s : Suffix) (more : List Suffix) (rest : Text → Option Groups) (t : Text) (g : Groups)
    → Tight t
    → take_word s t ≡ none
    → match_groups more rest t ≡ some g
    → match_groups (s ∷ more) rest t ≡ some (none ∷ g)
unfolding match_groups
passed s more rest t g tight word h = rw (match_groups, tight, word, tight, h) refl

-- A component: a positive number with the character of its unit, or nothing
abbrev pub component : ℕ → ℕ → Text
component l n = if nat_eq n 0 then [] else digits n ++ l ∷ []

abbrev pub captured : ℕ → Option Word
captured n = if nat_eq n 0 then none else some (record { whole = digits n; fraction = [] })

-- A character of a unit
abbrev pub is_letter : ℕ → Bool
is_letter l = if is_digit l then false else if nat_eq l b'.' then false else true

take_word-component :
    (s : Suffix) (l n : ℕ) (t : Text)
    → is_letter l ≡ true
    → take_word s (digits n ++ l ∷ t)
      ≡ Option.map (λ u. (record { whole = digits n; fraction = [] }, u)) (take_suffix s (l ∷ t))
unfolding take_word
take_word-component s l n t h =
    let no_digit : stops is_digit (l ∷ t) ≡ true = ground arith in
    let no_point : nat_eq l b'.' ≡ false = ground arith in
    rw (take_word, take_number-digits n (l ∷ t) no_digit, no_point) refl

pub Tight-digits : (n : ℕ) (t : Text) → Tight (digits n ++ t)
unfolding skip_spaces drop_while
Tight-digits n t = starts (digits n) (digits-AllDigits n) (digits-ne-nil n)
  where
    starts :
        (cs : Text)
        → All (λ c. is_digit c ≡ true) cs
        → cs ≢ []
        → drop_while is_space (cs ++ t) ≡ cs ++ t
    starts [] a h = absurd (h refl)
    starts (c ∷ cs) a h =
        let no_space : is_space c ≡ false = ground (arith, a.0) in rw (drop_while, no_space) refl

pub component-Tight : (l n : ℕ) (t : Text) → Tight t → Tight (component l n ++ t)
component-Tight l n t h = elim (Bool-cases (nat_eq n 0)) [
  | inl z ↦ rw z h
  | inr p ↦ rw (p, append_assoc (digits n) (l ∷ []) t) (Tight-digits n (l ∷ t))
]

-- A component with another unit is passed,
pub component-no_word :
    (s : Suffix) (l n : ℕ) (t : Text)
    → is_letter l ≡ true
    → take_suffix s (l ∷ t) ≡ none
    → take_word s t ≡ none
    → take_word s (component l n ++ t) ≡ none
component-no_word s l n t letter other h = elim (Bool-cases (nat_eq n 0)) [
  | inl z ↦ rw z h
  | inr p ↦
      rw (p, append_assoc (digits n) (l ∷ []) t)
        (take_word-component s l n t letter ∙ rw other refl)
]

-- and one with the unit of the group is captured.
pub component-captured :
    (s : Suffix) (l n : ℕ) (t : Text) (more : List Suffix) (rest : Text → Option Groups)
    (g : Groups)
    → is_letter l ≡ true
    → take_suffix s (l ∷ t) ≡ some t
    → take_word s t ≡ none
    → Tight t
    → match_groups more rest t ≡ some g
    → match_groups (s ∷ more) rest (component l n ++ t) ≡ some (captured n ∷ g)
component-captured s l n t more rest g letter unit quiet tight h = elim (Bool-cases (nat_eq n 0)) [
  | inl z ↦ rw z (passed s more rest t g tight quiet h)
  | inr p ↦
      rw (p, append_assoc (digits n) (l ∷ []) t)
        (taken s more rest (digits n ++ l ∷ t) t (record { whole = digits n; fraction = [] }) g
          (Tight-digits n (l ∷ t)) (take_word-component s l n t letter ∙ rw unit refl) h)
]
