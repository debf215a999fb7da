-- ===== src/Expander.antt =====
-- Placeholders in a text: `Expander.substitute` of src/core/python/core/stringutils/stringexpander.py.
-- Texts are lists of ASCII codes. The methods that `evalMethods` names for `${`, `$[` and `$(` are
-- the parameter `evaluate`.
pub mod Unescape
pub mod Grammar
pub mod Meaning
pub mod Shorter
pub mod Settles
pub mod Ends
use common_core.Base.{
  ℕ, zero, suc, ◌+◌, Bool, true, false, ◌&&◌, ◌||◌, Option, none, some, List, [], ◌∷◌, ◌++◌, length,
  nat_eq, take_while, drop_while, if◌then◌else◌,
}
use common_core.Base.Text.{Text, newline, backslash, is_space}
use mathlib.Core.Option
use common_core.Base.Result.{Result, ok, raised, chain, apply}
use common_core.Expander.Unescape.{
  Failure, end_of_input, missing_end, expected_end, evaluation, unfinished, end_of_file, unescape,
}

-- The end of a bracket: `_end_tokens`
abbrev pub end_token : ℕ → ℕ
end_token c = if nat_eq c b'{' then b'}' else if nat_eq c b'[' then b']' else b')'

abbrev pub is_start : ℕ → Bool
is_start c = nat_eq c b'{' || nat_eq c b'[' || nat_eq c b'('

abbrev pub is_end : ℕ → Bool
is_end c = nat_eq c b'}' || nat_eq c b']' || nat_eq c b')'

-- The tokens; a subexpression comes with its bracket and what follows it.
pub data Token : Type 0 where
  space : Token
  subexpression : ℕ → Text → Token
  sub_nested : Token
  sub_end : Token
  plain : Token

abbrev pub subexpression_at : Text → Token
subexpression_at [] = plain
subexpression_at (c ∷ cs) = if is_start c then subexpression c cs else plain

-- What the search finds at a character; the end of a bracket is a token within brackets only.
unfoldable pub token_at : Bool → ℕ → Text → Token
token_at inside c cs =
    if nat_eq c backslash
    then space
    else if nat_eq c b'$'
    then subexpression_at cs
    else if is_start c
    then sub_nested
    else if inside && is_end c
    then sub_end
    else plain

-- `readLine`: a line of the input stream; without a stream there is none
abbrev pub read_line : List Text → Option (Text × List Text)
read_line [] = none
read_line ([] ∷ lines) = none
read_line ((c ∷ cs) ∷ lines) = some (c ∷ cs, lines)

abbrev pub last_of : ℕ → Text → Option Text → Option Text
last_of c cs (some t) = some t
last_of c cs none = if nat_eq c newline then some cs else none

-- What follows the last end of a line
unfoldable pub last_line : Text → Option Text
last_line [] = none
last_line (c ∷ cs) = last_of c cs (last_line cs)

-- What a method gives: a text, what follows it, and the lines to come
pub record Step : Type 0 where
  pub arg : Text
  pub rest : Text
  pub lines : List Text

abbrev pub extended : Option (Text × List Text) → Result Failure Step
extended none = raised end_of_input
extended (some (text, lines)) = ok (record { arg = []; rest = text; lines = lines })

abbrev pub unescaped : List Text → ℕ × Text → Step
unescaped lines (c, rest) = record { arg = c ∷ []; rest = rest; lines = lines }

abbrev pub on_same_line : Text → List Text → Option Text → Result Failure Step
on_same_line text lines none = apply (unescaped lines) (unescape text)
on_same_line text lines (some next) = ok (record { arg = []; rest = next; lines = lines })

abbrev pub behind_spaces : Text → List Text → Text → Text → Result Failure Step
behind_spaces text lines spaces [] = extended (read_line lines)
behind_spaces text lines spaces (c ∷ cs) =
    on_same_line text lines (Option.map (λ t. t ++ c ∷ cs) (last_line spaces))

-- `_process_backslash`
unfoldable pub process_backslash : Text → List Text → Result Failure Step
unfolding last_line
process_backslash text lines =
    behind_spaces text lines (take_while is_space text) (drop_while is_space text)

-- What `_expandText` returns
pub record Expanded : Type 0 where
  pub arg : Text
  pub end : Option ℕ
  pub rest : Text
  pub lines : List Text

abbrev pub before : Text → Expanded → Expanded
before part x = record x { arg = part ++ x.arg }

abbrev pub behind : Text → Result Failure Expanded → Result Failure Expanded
behind part r = apply (before part) r

abbrev pub end_text : Option ℕ → Text
end_text none = []
end_text (some c) = c ∷ []

-- `_check_end`
unfoldable pub check_end : ℕ → Option ℕ → Result Failure Unit
check_end start none = raised (missing_end (end_token start))
check_end start (some end) =
    if nat_eq end (end_token start) then ok tt else raised (expected_end (end_token start) end)

-- The text of a value, none for None
abbrev pub evaluated : Result Text (Option Text) → Result Failure Text
evaluated (ok none) = ok []
evaluated (ok (some text)) = ok text
evaluated (raised reason) = raised (evaluation reason)

abbrev pub arg_of : Result Failure Expanded → Result Failure Text
arg_of r = apply (λ x. x.arg) r

-- The characters left
abbrev pub left : Text → List Text → ℕ
left text [] = length text
left text (line ∷ lines) = length text + left line lines

-- The input: a text, a stream of lines, or nothing
pub data Input : Type 0 where
  string : Text → Input
  stream : List Text → Input
  nothing : Input

-- `_process_sub_nested`, once its text is expanded
abbrev pub process_sub_nested : ℕ → Expanded → Text
process_sub_nested start x = start ∷ x.arg ++ end_text x.end

module _ (evaluate : ℕ → Text → Result Text (Option Text)) where
  -- `_process_subexpression`, once its text is expanded
  unfoldable pub process_subexpression : ℕ → Expanded → Result Failure Text
  unfolding check_end
  process_subexpression start x =
      chain (check_end start x.end) (λ u. evaluated (evaluate start x.arg))

  -- `_expandText`, with one round for each token or character
  unfoldable pub expand_text : ℕ → Bool → Text → List Text → Result Failure Expanded
  unfolding token_at process_backslash process_subexpression
  expand_text zero inside text lines = raised unfinished
  expand_text (suc n) inside [] lines =
      ok (record { arg = []; end = none; rest = []; lines = lines })
  expand_text (suc n) inside (c ∷ cs) lines = elim (token_at inside c cs) [
    | space ↦
        chain (process_backslash cs lines) (λ s. behind s.arg (expand_text n inside s.rest s.lines))
    | subexpression start rest ↦ chain (expand_text n true rest lines) (λ x.
        chain (process_subexpression start x)
          (λ part. behind part (expand_text n inside x.rest x.lines)))
    | sub_nested ↦
        chain (expand_text n true cs lines)
          (λ x. behind (process_sub_nested c x) (expand_text n inside x.rest x.lines))
    | sub_end ↦ ok (record { arg = []; end = some c; rest = cs; lines = lines })
    | plain ↦ behind (c ∷ []) (expand_text n inside cs lines)
  ]

  abbrev pub substitute_text : Text → List Text → Result Failure Text
  substitute_text text lines = arg_of (expand_text (suc (left text lines)) false text lines)

  abbrev pub substitute_first : Option (Text × List Text) → Result Failure Text
  substitute_first none = raised end_of_file
  substitute_first (some (text, lines)) = substitute_text text lines

  -- `substitute(input, substitutions)`
  unfoldable pub substitute : Input → Result Failure Text
  unfolding expand_text
  substitute (string text) = substitute_text text []
  substitute (stream lines) = substitute_first (read_line lines)
  substitute nothing = substitute_text [] []
