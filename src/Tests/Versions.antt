-- ===== src/Tests/Versions.antt =====
-- Versions that are read.
use common_core.Base.{ℕ, Bool, ◌≡◌, refl, ◌^◌, ◌∷◌, [], true, false, take_while, drop_while, ltb}
use common_core.Base.Result.{ok, raised}
use common_core.Versions.{Version, value_error, release, parsed, within, from_string, is_compatible}
use common_core.Versions.Read.{written, written_build, from_string-written}

-- Fields of 32 bits
abbrev fits : ℕ → Bool
fits n = ltb n (2 ^ 32)

abbrev candidate : Version
candidate = record (release 2 14 0 []) { build_number = 7 }

-- 2.14.0, and 2.14.0-7rc
from_string-written_example :
    (from_string fits (written candidate)
      ≡ ok (record candidate { build_number = 0; printable_version = written candidate }))
    × (from_string fits (written_build candidate (b'r' ∷ b'c' ∷ []))
        ≡ ok (record candidate { printable_version = written_build candidate (b'r' ∷ b'c' ∷ []) }))
unfolding written
from_string-written_example = from_string-written fits candidate (b'r' ∷ b'c' ∷ []) refl

short_run : from_string fits (b'v' ∷ b'3' ∷ []) ≡ ok (release 0 0 0 (b'v' ∷ b'3' ∷ []))
unfolding from_string parsed take_while drop_while
short_run = refl

too_large_run : within fits (record candidate { major = 4294967296 }) ≡ raised value_error
too_large_run = refl

compatible_run : is_compatible candidate (release 2 13 0 []) true ≡ false
unfolding is_compatible
compatible_run = refl
