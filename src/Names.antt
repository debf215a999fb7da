-- ===== src/Names.antt =====
-- Enumeration names without their common prefix: `common_prefix` of
-- src/core/python/core/stringutils/common_prefix.py, and `native_enum_from_proto` of
-- src/core/python/protobuf/utils/enum.py up to the construction of the enumeration. Texts are lists of
-- codes, and the delimiter is one character.
pub mod Stripped
use common_core.Base.Text.{Text}
use common_core.Base.{
  ℕ, ◌+◌, Bool, true, false, List, [], ◌∷◌, ◌++◌, map, length, drop, nat_eq, list_beq, eq_ℕ,
  if◌then◌else◌,
}
use common_core.Base.Int.{ℤ}

abbrev pub onto_first : ℕ → List Text → List Text
onto_first c [] = (c ∷ []) ∷ []
onto_first c (part ∷ parts) = (c ∷ part) ∷ parts

-- text.split(delimiter)
unfoldable pub split : ℕ → Text → List Text
split d [] = [] ∷ []
split d (c ∷ cs) = let parts = split d cs in if nat_eq c d then [] ∷ parts else onto_first c parts

-- delimiter.join(parts)
abbrev pub join : ℕ → List Text → Text
join d [] = []
join d (part ∷ []) = part
join d (part ∷ next ∷ parts) = part ++ d ∷ join d (next ∷ parts)

-- [part for (part, symbol_part) in zip(parts, symbol_parts) if part == symbol_part]
unfoldable pub common_parts : List Text → List Text → List Text
common_parts [] symbol_parts = []
common_parts (part ∷ parts) [] = []
common_parts (part ∷ parts) (symbol_part ∷ symbol_parts) =
    let rest = common_parts parts symbol_parts in
    if list_beq part symbol_part then part ∷ rest else rest

unfoldable pub prefix_of : List Text → List (List Text) → List Text
prefix_of parts [] = parts
prefix_of parts (symbol_parts ∷ symbols) = prefix_of (common_parts parts symbol_parts) symbols

-- sum([(len(part) + len(delimiter)) for part in parts])
abbrev pub parts_length : List Text → ℕ
parts_length [] = 0
parts_length (part ∷ parts) = (length part + 1) + parts_length parts

-- `common_prefix(symbols, delimiter)`
unfoldable pub common_prefix : List Text → ℕ → ℕ × Text
unfolding prefix_of
common_prefix [] d = (0, [])
common_prefix (symbol ∷ symbols) d =
    let parts = prefix_of (split d symbol) (map (λ s. split d s) symbols) in
    (parts_length parts, join d parts)

-- The names and values from which `native_enum_from_proto(proto_type, strip_common_prefix)` builds the
-- enumeration, of those of the given type
unfoldable pub native_items : List (Text × ℤ) → Bool → List (Text × ℤ)
unfolding common_prefix
native_items items true =
    let (n, prefix) = common_prefix (map (λ i. i.0) items) b'_' in
    map (λ i. (drop n i.0, i.1)) items
native_items items false = items
