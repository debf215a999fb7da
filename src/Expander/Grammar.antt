-- ===== src/Expander/Grammar.antt =====
-- What texts with placeholders mean.
use common_core.Base.{ℕ, false, ◌||◌, ◌≡◌, [], ◌∷◌, ◌++◌, Option, nat_eq}
use common_core.Base.Text.{Text, backslash}
use common_core.Base.Result.{Result, ok, chain, apply}
use common_core.Expander.Unescape.{Failure}
use common_core.Expander.{is_start, is_end, evaluated}

pub data Bracket : Type 0 where
  curly : Bracket
  square : Bracket
  round : Bracket

abbrev pub start : Bracket → ℕ
start curly = b'{'
start square = b'['
start round = b'('

abbrev pub finish : Bracket → ℕ
finish curly = b'}'
finish square = b']'
finish round = b')'

-- The characters that stand for themselves behind a backslash only
pub data Special : Type 0 where
  slash : Special
  dollar : Special
  opening : Bracket → Special
  closing : Bracket → Special

abbrev pub code : Special → ℕ
code slash = backslash
code dollar = b'$'
code (opening b) = start b
code (closing b) = finish b

-- A text: characters, escaped characters, placeholders, and brackets with a text between
pub data Template : Type 0 where
  done : Template
  character : ℕ → Template → Template
  escaped : Special → Template → Template
  placeholder : Bracket → Template → Template → Template
  bracketed : Bracket → Template → Template → Template

-- Its characters are none of the special ones.
abbrev pub IsPlain : Template → Type 0
IsPlain done = Unit
IsPlain (character c t) =
    (nat_eq c backslash || nat_eq c b'$' || is_start c || is_end c ≡ false) × IsPlain t
IsPlain (escaped s t) = IsPlain t
IsPlain (placeholder b inner t) = IsPlain inner × IsPlain t
IsPlain (bracketed b inner t) = IsPlain inner × IsPlain t

abbrev pub render : Template → Text
render done = []
render (character c t) = c ∷ render t
render (escaped s t) = backslash ∷ code s ∷ render t
render (placeholder b inner t) = b'$' ∷ start b ∷ render inner ++ finish b ∷ render t
render (bracketed b inner t) = start b ∷ render inner ++ finish b ∷ render t

-- Placeholders are evaluated from left to right, the inner ones first.
unfoldable pub meaning : (ℕ → Text → Result Text (Option Text)) → Template → Result Failure Text
meaning evaluate done = ok []
meaning evaluate (character c t) = apply (λ u. c ∷ u) (meaning evaluate t)
meaning evaluate (escaped s t) = apply (λ u. code s ∷ u) (meaning evaluate t)
meaning evaluate (placeholder b inner t) =
    let after = meaning evaluate t in
    chain (meaning evaluate inner)
      (λ arg. chain (evaluated (evaluate (start b) arg)) (λ part. apply (λ u. part ++ u) after))
meaning evaluate (bracketed b inner t) =
    let after = meaning evaluate t in
    chain (meaning evaluate inner) (λ arg. apply (λ u. (start b ∷ arg ++ finish b ∷ []) ++ u) after)
