-- ===== src/Settings/Comments.antt =====
-- JSON texts with comments: `_remove_comments` and `parse_text` of
-- src/core/python/core/settingsstore/jsonreader.py. Texts are lists of codes.
pub mod Tokens
pub mod Removed
pub mod Ends
use common_core.Base.{
  ℕ, zero, suc, Bool, true, false, ◌&&◌, ◌||◌, not, Option, none, some, List, [], ◌∷◌, ◌++◌, length,
  nat_eq, leb, drop_while, if◌then◌else◌,
}
use common_core.Base.Text.{Text, newline, backslash, is_space, begins, rest_of}
use common_core.Base.Result.{Result, ok, raised, apply}
use mathlib.Core.List.{reverse}
use mathlib.Core.Option

abbrev pub single_quote : ℕ
single_quote = 39

-- `.*?$`: what follows it, from the first end of a line on
unfoldable pub skip_line : Text → Text
skip_line t = drop_while (λ c. not (nat_eq c newline)) t

-- `.*?\*/`: what follows it
unfoldable pub skip_block : Text → Option Text
skip_block [] = none
skip_block (c ∷ cs) =
    let rest = skip_block cs in if nat_eq c b'*' && begins b'/' cs then some (rest_of cs) else rest

abbrev pub keep : ℕ → Option (Text × Text) → Option (Text × Text)
keep c none = none
keep c (some (q, rest)) = some (c ∷ q, rest)

-- `(?:\\.|[^\\q])*q` for a quote `q`: what it matches, and what follows it. `escaped` tells whether the
-- character comes after a backslash that escapes it.
unfoldable pub match_quoted : ℕ → Bool → Text → Option (Text × Text)
match_quoted q escaped [] = none
match_quoted q true (c ∷ cs) = keep c (match_quoted q false cs)
match_quoted q false (c ∷ cs) =
    let more = keep c (match_quoted q (nat_eq c backslash) cs) in
    if nat_eq c backslash then more else if nat_eq c q then some (c ∷ [], cs) else more

abbrev pub nothing_kept : Option Text → Option (Text × Text)
nothing_kept none = none
nothing_kept (some rest) = some ([], rest)

-- A match of `_jsonComments` at a character and what follows it: what replaces it, `\4\5`, and what
-- follows the match
unfoldable pub match_comment : ℕ → Text → Option (Text × Text)
unfolding skip_line skip_block match_quoted
match_comment c cs =
    if nat_eq c b'/' && begins b'/' cs
    then some ([], skip_line (rest_of cs))
    else if nat_eq c b'/' && begins b'*' cs
    then nothing_kept (skip_block (rest_of cs))
    else if nat_eq c b'#'
    then some ([], skip_line cs)
    else if nat_eq c single_quote || nat_eq c b'"'
    then keep c (match_quoted c false cs)
    else none

-- `re.sub`, with a round of fuel for each character, none when it is used up
unfoldable pub replace_within : ℕ → Text → Option Text
replace_within zero t = none
replace_within (suc fuel) [] = some []
replace_within (suc fuel) (c ∷ cs) = elim (match_comment c cs) [
  | none ↦ Option.map (λ t. c ∷ t) (replace_within fuel cs)
  | some (kept, rest) ↦ Option.map (λ t. kept ++ t) (replace_within fuel rest)
]

-- `_remove_comments(text)`
unfoldable pub remove_comments : Text → Option Text
unfolding replace_within
remove_comments t = replace_within (suc (length t)) t

abbrev pub strip : Text → Text
strip t = reverse (drop_while is_space (reverse (drop_while is_space t)))

module _ {E A : Type 0} (loads : Text → Result E A) where
  abbrev pub load_stripped : Text → Result E (Option A)
  load_stripped [] = ok none
  load_stripped (c ∷ cs) = apply some (loads (c ∷ cs))

  -- `parse_text(text)`, where `loads` is `json.loads`
  unfoldable pub parse_text : Text → Option (Result E (Option A))
  unfolding remove_comments
  parse_text t = Option.map (λ u. load_stripped (strip u)) (remove_comments t)
