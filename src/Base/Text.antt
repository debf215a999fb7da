-- ===== src/Base/Text.antt =====
-- Texts as lists of character codes.
use Prim.Native.Nat.{ℕ}
use mathlib.Core.Bool.{Bool, false, ◌||◌}
use mathlib.Core.List.{List, [], ◌∷◌}
use common_core.Base.Tests.{if◌then◌else◌, leb, nat_eq}

abbrev pub Text : Type 0
Text = List ℕ

abbrev pub newline : ℕ
newline = 10

abbrev pub backslash : ℕ
backslash = 92

-- The white space of Python's `str.strip` and of `\s` in its patterns
abbrev pub is_space : ℕ → Bool
is_space c = if leb 9 c then leb c 13 || (if leb 28 c then leb c 32 else false) else false

abbrev pub begins : ℕ → Text → Bool
begins c [] = false
begins c (d ∷ ds) = nat_eq d c

abbrev pub rest_of : Text → Text
rest_of [] = []
rest_of (c ∷ cs) = cs
