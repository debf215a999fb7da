-- ===== src/Tests/Names.antt =====
-- Names of an enumeration.
use common_core.Base.Text.{Text}
use common_core.Base.{◌≡◌, refl, inl, true, List, [], ◌∷◌, any, eq_ℕ}
use common_core.Base.Int.{pos}
use common_core.Names.{common_prefix, split, common_parts, native_items}
use common_core.Names.Stripped.{Entry, native_items-strips}

-- MY_ONE and MY_TWO
abbrev one : Entry
one = record { part = b'O' ∷ b'N' ∷ b'E' ∷ []; parts = []; number = pos 1 }

abbrev two : Entry
two = record { part = b'T' ∷ b'W' ∷ b'O' ∷ []; parts = []; number = pos 2 }

abbrev my : List Text
my = (b'M' ∷ b'Y' ∷ []) ∷ []

native_items-strips_example :
    native_items
      ((b'M' ∷ b'Y' ∷ b'_' ∷ b'O' ∷ b'N' ∷ b'E' ∷ [], pos 1)
        ∷ (b'M' ∷ b'Y' ∷ b'_' ∷ b'T' ∷ b'W' ∷ b'O' ∷ [], pos 2)
        ∷ [])
      true
    ≡ (b'O' ∷ b'N' ∷ b'E' ∷ [], pos 1) ∷ (b'T' ∷ b'W' ∷ b'O' ∷ [], pos 2) ∷ []
unfolding any
native_items-strips_example =
    native_items-strips my one (two ∷ []) (search tt) (search (refl, tt)) (inl refl, tt)

-- A_B_C and A_X_C: the parts after the first difference are compared too.
prefix_run :
    common_prefix
      ((b'A' ∷ b'_' ∷ b'B' ∷ b'_' ∷ b'C' ∷ []) ∷ (b'A' ∷ b'_' ∷ b'X' ∷ b'_' ∷ b'C' ∷ []) ∷ [])
      b'_'
    ≡ (4, b'A' ∷ b'_' ∷ b'C' ∷ [])
unfolding common_prefix split common_parts
prefix_run = refl
