-- ===== src/Tests/Comments.antt =====
-- Comments in JSON texts.
use common_core.Base.Text.{backslash, newline}
use common_core.Base.{◌≡◌, refl, some, List, [], ◌∷◌}
use common_core.Settings.Comments.{remove_comments}
use common_core.Settings.Comments.Tokens.{
  literal, escape, Token, plain, string, slashes, block, render, kept, AreTokens,
}
use common_core.Settings.Comments.Removed.{remove_comments-render}

-- {"//\"": 1 /* * */ } // "
abbrev sample : List Token
sample =
    plain b'{'
    ∷ string b'"' (literal b'/' ∷ literal b'/' ∷ escape b'"' ∷ [])
    ∷ plain b':'
    ∷ plain b'1'
    ∷ block (b'*' ∷ b' ' ∷ [])
    ∷ plain b'}'
    ∷ slashes (b' ' ∷ b'"' ∷ [])
    ∷ plain newline
    ∷ []

kept_run :
    kept sample
    ≡ b'{' ∷ b'"' ∷ b'/' ∷ b'/' ∷ backslash ∷ b'"' ∷ b'"' ∷ b':' ∷ b'1' ∷ b'}' ∷ newline ∷ []
kept_run = refl

sample-AreTokens : AreTokens sample
sample-AreTokens = search tt

remove_comments-render_example : remove_comments (render sample) ≡ some (kept sample)
remove_comments-render_example = remove_comments-render sample sample-AreTokens
