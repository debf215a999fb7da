-- ===== src/Expander/Unescape.antt =====
-- Escapes: `_unescape` of src/core/python/core/stringutils/stringexpander.py, and the exceptions.
use common_core.Base.{
  ℕ, zero, suc, ◌+◌, ◌-◌, ◌*◌, Bool, true, false, ◌&&◌, ◌||◌, Option, none, some, [], ◌∷◌, nat_eq,
  leb, if◌then◌else◌,
}
use mathlib.Core.Option
use common_core.Base.Text.{Text}
use common_core.Base.Result.{Result, ok, raised}

-- The exceptions: ParseError with its reason, EOFError, NameError, IndexError; and a text whose
-- rounds do not suffice
pub data Failure : Type 0 where
  end_of_input : Failure
  missing_end : ℕ → Failure
  expected_end : ℕ → ℕ → Failure
  evaluation : Text → Failure
  end_of_file : Failure
  name_error : Failure
  index_error : Failure
  unfinished : Failure

abbrev pub is_octal : ℕ → Bool
is_octal c = leb b'0' c && leb c b'7'

abbrev pub is_hex : ℕ → Bool
is_hex c = (leb b'0' c && leb c b'9') || (leb b'a' c && leb c b'f') || (leb b'A' c && leb c b'F')

abbrev pub hex_value : ℕ → ℕ
hex_value c = if leb b'a' c then c - 87 else if leb b'A' c then c - 55 else c - 48

abbrev pub octal_last : ℕ → Text → Option (ℕ × Text)
octal_last n [] = none
octal_last n (c ∷ cs) = if is_octal c then some (n * 8 + (c - 48), cs) else none

abbrev pub octal_middle : ℕ → Text → Option (ℕ × Text)
octal_middle n [] = none
octal_middle n (c ∷ cs) = if is_octal c then octal_last (n * 8 + (c - 48)) cs else none

abbrev pub hex_last : ℕ → Text → Option (ℕ × Text)
hex_last n [] = none
hex_last n (c ∷ cs) = if is_hex c then some (n * 16 + hex_value c, cs) else none

abbrev pub hex_pair : Text → Option (ℕ × Text)
hex_pair [] = none
hex_pair (c ∷ cs) = if is_hex c then hex_last (hex_value c) cs else none

-- The escapes of one letter
abbrev pub control : ℕ → Option ℕ
control c =
    if nat_eq c b'0'
    then some 0
    else if nat_eq c b'a'
    then some 7
    else if nat_eq c b'b'
    then some 8
    else if nat_eq c b'n'
    then some 10
    else if nat_eq c b'f'
    then some 12
    else if nat_eq c b'r'
    then some 13
    else if nat_eq c b't'
    then some 9
    else if nat_eq c b'v'
    then some 11
    else none

-- The first alternative that matches
abbrev pub first_of : Option (ℕ × Text) → Option (ℕ × Text) → Option (ℕ × Text)
first_of none o = o
first_of (some r) o = some r

-- `_unescapeX.match(text, pos)`, and what the escape stands for
unfoldable pub match_escape : ℕ → Text → Option (ℕ × Text)
match_escape c cs =
    first_of (if is_octal c then octal_middle (c - 48) cs else none) (
      first_of (if nat_eq c b'x' then hex_pair cs else none)
        (Option.map (λ k. (k, cs)) (control c)))

abbrev pub hex_digits : ℕ → Text → Bool
hex_digits zero cs = true
hex_digits (suc n) [] = false
hex_digits (suc n) (c ∷ cs) = is_hex c && hex_digits n cs

-- `_unescapeU.match(text, pos)`
unfoldable pub match_unicode : ℕ → Text → Bool
match_unicode c cs =
    if nat_eq c b'u' then hex_digits 4 cs else if nat_eq c b'U' then hex_digits 8 cs else false

abbrev pub unescape_other : ℕ → Text → Option (ℕ × Text) → Result Failure (ℕ × Text)
unescape_other c cs (some r) = ok r
unescape_other c cs none = if match_unicode c cs then raised name_error else ok (c, cs)

-- `_unescape(text, pos)`
unfoldable pub unescape : Text → Result Failure (ℕ × Text)
unfolding match_escape match_unicode
unescape [] = raised index_error
unescape (c ∷ cs) = unescape_other c cs (match_escape c cs)
