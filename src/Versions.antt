-- ===== src/Versions.antt =====
-- Versions: src/core/python/protobuf/version/version.py. Texts are lists of ASCII codes.
pub mod Read
use common_core.Base.{
  ℕ, Bool, true, false, ◌&&◌, ◌||◌, not, List, [], ◌∷◌, ◌++◌, leb, nat_eq, take_while, drop_while,
  if◌then◌else◌,
}
use common_core.Base.Text.{Text, begins, rest_of}
use common_core.Base.Decimal.{is_digit, read_digits}
use common_core.Base.Result.{Result, ok, raised}

-- A `Version` message
pub record Version : Type 0 where
  pub major : ℕ
  pub minor : ℕ
  pub patch : ℕ
  pub build_number : ℕ
  pub printable_version : Text

pub data Failure : Type 0 where
  value_error : Failure

-- A message whose numbers are set: its fields take the numbers of their type, which `fits` tells, and
-- raise ValueError for others.
abbrev pub within : (ℕ → Bool) → Version → Result Failure Version
within fits v =
    if fits v.major && (fits v.minor && (fits v.patch && fits v.build_number))
    then ok v
    else raised value_error

abbrev pub release : ℕ → ℕ → ℕ → Text → Version
release major minor patch printable = record {
  major = major;
  minor = minor;
  patch = patch;
  build_number = 0;
  printable_version = printable;
}

-- `version(major, minor, patch, printable_version)`
abbrev pub version : (ℕ → Bool) → ℕ → ℕ → ℕ → Text → Result Failure Version
version fits major minor patch printable = within fits (release major minor patch printable)

-- A group `(?:s(\d+))?` of the pattern: its number, zero where it is left out, and what follows
abbrev pub number_or_none : Text → Text → Text → ℕ × Text
number_or_none t [] rest = (0, t)
number_or_none t (c ∷ cs) rest = (read_digits (c ∷ cs), rest)

unfoldable pub match_group : ℕ → Text → ℕ × Text
match_group s t =
    let u = rest_of t in
    if begins s t then number_or_none t (take_while is_digit u) (drop_while is_digit u) else (0, t)

abbrev pub matched : Text → Text → Text → Version
matched string [] rest = release 0 0 0 string
matched string (c ∷ cs) rest =
    let (minor, after_minor) = match_group b'.' rest in
    let (patch, after_patch) = match_group b'.' after_minor in
    record {
      major = read_digits (c ∷ cs);
      minor = minor;
      patch = patch;
      build_number = (match_group b'-' after_patch).0;
      printable_version = string;
    }

-- The pattern matches at the start of the text, with anything after it.
unfoldable pub parsed : Text → Version
parsed string = matched string (take_while is_digit string) (drop_while is_digit string)

-- `from_string(string)`
unfoldable pub from_string : (ℕ → Bool) → Text → Result Failure Version
unfolding parsed
from_string fits string = within fits (parsed string)

-- `is_compatible(client_version, server_version, strict)`
unfoldable pub is_compatible : Version → Version → Bool → Bool
is_compatible client server strict =
    nat_eq client.major server.major && (leb client.minor server.minor || not strict)
