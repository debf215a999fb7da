-- ===== src/Tests/Expander.antt =====
-- Placeholders in texts.
use common_core.Base.{ℕ, ◌≡◌, ◌≢◌, refl, Option, some, [], ◌∷◌, ◌++◌, take_while, drop_while}
use common_core.Base.Text.{Text, backslash}
use common_core.Base.Result.{Result, ok, raised}
use common_core.Expander.{
  string, substitute, expand_text, process_backslash, check_end, token_at, last_line,
}
use common_core.Expander.Unescape.{unescape, name_error, expected_end, unfinished}
use common_core.Expander.Grammar.{
  curly, square, Template, done, character, escaped, placeholder, bracketed, dollar, render,
  meaning,
}
use common_core.Expander.Meaning.{substitute-render}
use common_core.Expander.Ends.{substitute-ends}

-- Every placeholder is replaced by its text between angle brackets.
abbrev quote : ℕ → Text → Result Text (Option Text)
quote start t = ok (some (b'<' ∷ t ++ b'>' ∷ []))

-- a\$${b${c}}[d]
abbrev template : Template
template = character b'a' (
    escaped dollar (
      placeholder curly (character b'b' (placeholder curly (character b'c' done) done))
        (bracketed square (character b'd' done) done)))

substitute-render_example : substitute quote (string (render template)) ≡ meaning quote template
substitute-render_example =
    substitute-render quote template (refl, ((refl, ((refl, tt), tt)), ((refl, tt), tt)))

substitute_run :
    substitute quote (string (render template))
    ≡ ok (b'a' ∷ b'$' ∷ b'<' ∷ b'b' ∷ b'<' ∷ b'c' ∷ b'>' ∷ b'>' ∷ b'[' ∷ b'd' ∷ b']' ∷ [])
unfolding substitute expand_text token_at process_backslash check_end unescape last_line take_while
    drop_while
substitute_run = refl

substitute-ends_example :
    substitute quote (string (b'$' ∷ b'{' ∷ backslash ∷ b'a' ∷ [])) ≢ raised unfinished
substitute-ends_example = substitute-ends quote (string (b'$' ∷ b'{' ∷ backslash ∷ b'a' ∷ []))

-- ${a]: the brackets of a placeholder have to match.
mismatch_run :
    substitute quote (string (b'$' ∷ b'{' ∷ b'a' ∷ b']' ∷ [])) ≡ raised (expected_end b'}' b']')
unfolding substitute expand_text token_at process_backslash check_end unescape last_line take_while
    drop_while
mismatch_run = refl

-- \u0041 ends in NameError.
unicode_run :
    substitute quote (string (backslash ∷ b'u' ∷ b'0' ∷ b'0' ∷ b'4' ∷ b'1' ∷ []))
    ≡ raised name_error
unfolding substitute expand_text token_at process_backslash check_end unescape last_line take_while
    drop_while
unicode_run = refl
