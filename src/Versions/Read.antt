-- ===== src/Versions/Read.antt =====
-- Reading the numbers of a version.
use mathlib.Core.List.{append_assoc, append-nil}
use common_core.Base.{
  sym, ℕ, ◌≡◌, ◌≢◌, beq_refl, eq_ℕ, refl, ap, ◌∙◌, Bool, true, [], ◌∷◌, ◌++◌, take_while,
  drop_while, take_while-append, drop_while-append, stops,
}
use common_core.Base.Text.{Text}
use common_core.Base.Decimal.{
  is_digit, digits, read_digits, read_digits-digits, digits-AllDigits, digits-ne-nil,
}
use common_core.Versions.{
  number_or_none, matched, Version, match_group, parsed, within, from_string,
}

-- The numbers of a version with dots between them, and with the build number after a dash
unfoldable pub written : Version → Text
written v = digits v.major ++ (b'.' ∷ (digits v.minor ++ (b'.' ∷ digits v.patch)))

abbrev pub written_build : Version → Text → Text
written_build v t = written v ++ (b'-' ∷ (digits v.build_number ++ t))

number_or_none-ne_nil :
    (t ds rest : Text) → ds ≢ [] → number_or_none t ds rest ≡ (read_digits ds, rest)
number_or_none-ne_nil t [] rest h = absurd (h refl)
number_or_none-ne_nil t (c ∷ cs) rest h = refl

matched-ne_nil :
    (string ds rest : Text)
    → ds ≢ []
    → matched string ds rest ≡ (
        let (minor, after_minor) = match_group b'.' rest in
        let (patch, after_patch) = match_group b'.' after_minor in
        record {
          major = read_digits ds;
          minor = minor;
          patch = patch;
          build_number = (match_group b'-' after_patch).0;
          printable_version = string;
        })
matched-ne_nil string [] rest h = absurd (h refl)
matched-ne_nil string (c ∷ cs) rest h = refl

match_group-digits :
    (s n : ℕ) (t : Text) → stops is_digit t ≡ true → match_group s (s ∷ (digits n ++ t)) ≡ (n, t)
unfolding match_group
match_group-digits s n t h =
    rw
      (
        beq_refl s,
        take_while-append is_digit (digits n) t (digits-AllDigits n) h,
        drop_while-append is_digit (digits n) t (digits-AllDigits n) h,
      )
      (number_or_none-ne_nil (s ∷ (digits n ++ t)) (digits n) t (digits-ne-nil n)
        ∙ ap (λ k. (k, t)) (read_digits-digits n))

parts :
    (v : Version) (t : Text)
    → written v ++ t ≡ digits v.major ++ (b'.' ∷ (digits v.minor ++ (b'.' ∷ (digits v.patch ++ t))))
unfolding written
parts v t =
    append_assoc (digits v.major) _ t
    ∙ ap (λ r. digits v.major ++ (b'.' ∷ r)) (append_assoc (digits v.minor) _ t)

ends :
    (v : Version)
    → written v ≡ digits v.major ++ (b'.' ∷ (digits v.minor ++ (b'.' ∷ (digits v.patch ++ []))))
ends v = sym (append-nil (written v)) ∙ parts v []

-- The text of a version with something after it that begins with no digit
parsed-numbers :
    (v : Version) (string t : Text)
    → stops is_digit t ≡ true
    → string ≡ digits v.major ++ (b'.' ∷ (digits v.minor ++ (b'.' ∷ (digits v.patch ++ t))))
    → parsed string ≡ record v { build_number = (match_group b'-' t).0; printable_version = string }
unfolding parsed
parsed-numbers v string t h e =
    let after = b'.' ∷ (digits v.minor ++ (b'.' ∷ (digits v.patch ++ t))) in
    let numeric = digits-AllDigits v.major in
    let first : take_while is_digit string ≡ digits v.major =
      ap (take_while is_digit) e ∙ take_while-append is_digit (digits v.major) after numeric refl in
    let rest : drop_while is_digit string ≡ after =
      ap (drop_while is_digit) e ∙ drop_while-append is_digit (digits v.major) after numeric refl in
    ap (λ ds. matched string ds (drop_while is_digit string)) first
    ∙ ap (matched string (digits v.major)) rest
    ∙ matched-ne_nil string (digits v.major) after (digits-ne-nil v.major)
    ∙ rw
        (
          match_group-digits b'.' v.minor (b'.' ∷ (digits v.patch ++ t)) refl,
          match_group-digits b'.' v.patch t h,
          read_digits-digits v.major,
        )
        refl

parsed-written :
    (v : Version) (t : Text)
    → stops is_digit t ≡ true
    → (parsed (written v) ≡ record v { build_number = 0; printable_version = written v })
      × (parsed (written_build v t) ≡ record v { printable_version = written_build v t })
unfolding written match_group
parsed-written v t h =
    let build = b'-' ∷ (digits v.build_number ++ t) in
    (
      parsed-numbers v (written v) [] refl (ends v),
      parsed-numbers v (written v ++ build) build refl (parts v build)
          ∙ ap (λ n. record v { build_number = n; printable_version = written v ++ build })
              (ap (λ m. m.0) (match_group-digits b'-' v.build_number t h)),
    )

-- A text of a major, a minor and a patch number with dots between them, and one with a build number
-- after a dash and anything after it that begins with no digit, are read as the message with these
-- numbers, whose build number is zero where there is none, and that keeps the text; and reading raises
-- ValueError exactly where the fields of the message do not take one of these numbers.
pub from_string-written :
    (fits : ℕ → Bool) (v : Version) (t : Text)
    → stops is_digit t ≡ true
    → (from_string fits (written v)
        ≡ within fits (record v { build_number = 0; printable_version = written v }))
      × (from_string fits (written_build v t)
          ≡ within fits (record v { printable_version = written_build v t }))
unfolding from_string
from_string-written fits v t h =
    let (plain, built) = parsed-written v t h in (ap (within fits) plain, ap (within fits) built)
